-- ===== src/Legacy/Web/Service/Samples.antt =====
-- Requests to the whole service at concrete data.
use mysql_datalayer.Legacy.Conf.{FieldMapping, PostMapping}
use mysql_datalayer.Legacy.Manager.{or_empty}
use mysql_datalayer.Legacy.Post.Store.{post_entities}
use mysql_datalayer.Legacy.Web.Batches.{
  Value, as_entity, deleted_member, entity_of, id_member, object, other_value, props_member,
  str_member,
}
use mysql_datalayer.Legacy.Web.Batches.Laws.{IsBatch, concat, post_until}
use mysql_datalayer.Legacy.Web.Service.Posts.{IsPosted, served-posts}
use mysql_datalayer.Prelude.Int.{pos}
use mysql_datalayer.Layer.Any.{Any}
use mysql_datalayer.Layer.Error.{Result, done, ok, panicked}
use mysql_datalayer.Legacy.Changes.{new_repository, since_token, with_types}
use mysql_datalayer.Legacy.Changes.Calls.{token_entities}
use mysql_datalayer.Legacy.Datasets.{null_string, one_of}
use mysql_datalayer.Legacy.Post.{Entity, Call, PostLayer}
use mysql_datalayer.Legacy.Web.Access.{claim_scopes, first_scopes}
use mysql_datalayer.Legacy.Web.Auth.{
  cached_certificate, certificate, extract_token, find_certificate, first_certificate, get_pem_cert,
  key_of, not_empty,
}
use mysql_datalayer.Legacy.Web.Auth.Laws.{IsAuthenticated}
use mysql_datalayer.Legacy.Web.Datasets.{Reply, bytes}
use mysql_datalayer.Legacy.Web.Datasets.Laws.{array_of, new_reply}
use mysql_datalayer.Legacy.Web.Http.{Handler, Context, HttpError}
use mysql_datalayer.Legacy.Web.Server.{serve, Route, get_changes, is_noop, post, setup_jwt, skipper}
use mysql_datalayer.Legacy.Web.Server.Laws.{IsAuthorized}
use mysql_datalayer.Legacy.Web.Service.{Request, Site}
use mysql_datalayer.Legacy.Web.Service.Laws.{
  write_recovered, IsUnauthorized, served, served-changes_array, served-unauthorized, write_reply,
}
use mysql_datalayer.Prelude.{
  All, List, Option, Text, [], add_front, false, has_prefix, inl, none, refl, some, split_on, text,
  ℕ, ◌==◌, ◌∷◌, ◌≡◌, ◌⊎◌,
}
use mysql_datalayer.Prelude.Dict.{lookup, Dict}
use mysql_datalayer.Legacy.Web.Server.Data.{
  claims, jwt, cache, intersect, intersect-IsIntersection, intersect-FindsCommon, env,
}
use mysql_datalayer.Legacy.Web.Datasets.Data.{
  unescape, query, context, has_dataset, has_context, asked,
}
use mysql_datalayer.Legacy.Changes.Data.{
  table, cmgr, now, other, uuid, rows, database, open_repo, named, found, ensured, timed, typed,
  emits,
}

abbrev getenv : Text → Text
getenv name = []

abbrev connect_db : Text → Result Text ℕ
connect_db name = ok 1

abbrev walk : Dict Any → Dict Any
walk m = m

abbrev answer : List Call → Option Text
answer calls = none

abbrev write_error : HttpError → Reply → Reply
write_error e reply = record { code = some e.code; pieces = bytes e.message ∷ [] }

abbrev write_panic : Reply → Reply
write_panic reply = record { code = some 500; pieces = [] }

abbrev request : Request
request = record { query = query; values = [] }

abbrev changes_route : Route
changes_route = record {
  method = text "GET";
  path = text "/datasets/:dataset/changes";
  scopes = text "datahub:r" ∷ [];
  operation = get_changes;
}

abbrev post_route : Route
post_route = record {
  method = text "POST";
  path = text "/datasets/:dataset/changes";
  scopes = text "datahub:w" ∷ [];
  operation = post;
}

abbrev with_token : Context
with_token = record {
  authorization = text "Bearer p";
  path = text "/datasets/:dataset/changes";
  request_uri = text "/datasets/t/changes";
  user = none;
}

abbrev without_token : Context
without_token = record with_token { authorization = [] }

abbrev post_layer : PostLayer ℕ
post_layer = record { mappings = []; db = none; post_table_def = none; calls = [] }

abbrev site : Site ℕ
site = record { repo = new_repository; post_layer = post_layer; reply = new_reply }

strict : is_noop env ≡ false
unfolding is_noop text ◌==◌
strict = refl

secured : skipper with_token ≡ false
unfolding skipper has_prefix text
secured = refl

secured_post : skipper without_token ≡ false
unfolding skipper has_prefix text
secured_post = refl

authenticated : IsAuthenticated jwt (setup_jwt cache env) with_token claims
unfolding extract_token has_prefix text key_of get_pem_cert cached_certificate find_certificate
    first_certificate not_empty certificate ◌==◌ setup_jwt
authenticated = (b'p' ∷ [], refl, refl, refl, refl)

authorized : IsAuthorized changes_route.scopes with_token claims
unfolding claim_scopes first_scopes split_on add_front one_of text ◌==◌
authorized = inl (refl, text "datahub:r", refl, refl)

no_token : (auth : Text) → extract_token [] ≡ some auth → ⊥
unfolding extract_token
no_token auth h = cc

unauthorized :
    IsUnauthorized jwt cache intersect write_error write_panic env database other uuid unescape cmgr
      getenv connect_db walk answer request post_route without_token
unauthorized c (auth, sent, read, audience, issuer) allowed = no_token auth sent

-- A handler that answers 200 and forgets the connections.
abbrev forgetful : Handler (Site ℕ)
forgetful c s =
    (record s { repo = new_repository; reply = record s.reply { code = some 200 } }, done)

served-unauthorized_example :
    (served jwt cache intersect write_error write_panic env database other uuid unescape cmgr getenv
        connect_db walk answer request post_route without_token site
      ≡ serve jwt cache intersect
          (write_reply write_error)
          (write_recovered write_panic)
          env
          post_route.scopes
          forgetful
          without_token
          site)
    × (((e : HttpError) × ((e.code ≡ 401) ⊎ (e.code ≡ 403))
          × (served jwt cache intersect write_error write_panic env database other uuid unescape
                cmgr getenv connect_db walk answer request post_route without_token site
              ≡ (write_reply write_error e site, done)))
        ⊎ (served jwt cache intersect write_error write_panic env database other uuid unescape cmgr
              getenv connect_db walk answer request post_route without_token site
            ≡ (site, panicked)))
served-unauthorized_example =
    served-unauthorized jwt cache intersect write_error write_panic env database other uuid unescape
      cmgr getenv connect_db walk answer request post_route without_token site forgetful
      intersect-IsIntersection strict secured_post unauthorized

served-changes_array_example :
    served jwt cache intersect write_error write_panic env database other uuid unescape cmgr getenv
      connect_db walk answer request changes_route with_token site
    ≡ (
      record {
        repo = open_repo;
        post_layer = post_layer;
        reply = record {
          code = some 200;
          pieces =
              array_of context
                (with_types table.types named ∷ token_entities table (since_token (some now)));
        };
      },
      done,
    )
served-changes_array_example =
    served-changes_array jwt cache intersect write_error write_panic env database other uuid
      unescape cmgr getenv connect_db walk answer request changes_route with_token claims
      (b't' ∷ []) table context new_repository open_repo post_layer (since_token (some now)) rows
      (null_string ∷ []) (with_types table.types named ∷ []) strict secured intersect-FindsCommon
      authenticated authorized refl refl has_dataset has_context found ensured timed asked typed
      emits

abbrev field : FieldMapping
field = record { field_name = b'a' ∷ []; to_my_sql_field = []; sort_order = pos 1; type_ = [] }

abbrev mapping : PostMapping
mapping = record {
  dataset_name = b't' ∷ [];
  table_name = b't' ∷ [];
  query = b'q' ∷ [];
  id_column = b'a' ∷ [];
  config = none;
  field_mappings = field ∷ [];
}

-- The writing layer has a connection.
abbrev post_site : Site ℕ
post_site = record site { post_layer = record post_layer { mappings = mapping ∷ []; db = some 1 } }

abbrev value : Value
value = object ((text "id", str_member (b'e' ∷ [])) ∷ [])

abbrev entity : Entity
entity = record { id = b'e' ∷ []; is_deleted = false; references = []; properties = [] }

value-entity : as_entity value ≡ some entity
unfolding as_entity id_member deleted_member props_member entity_of lookup text ◌==◌
value-entity = refl

abbrev post_request : Request
post_request = record { query = query; values = other_value ∷ value ∷ value ∷ [] }

may_post : IsAuthorized post_route.scopes with_token claims
unfolding claim_scopes first_scopes split_on add_front one_of text ◌==◌
may_post = inl (refl, text "datahub:w", refl, refl)

served-posts_example :
    (all : List (List Entity)) × (concat all ≡ entity ∷ entity ∷ [])
    × All IsBatch all
    × IsPosted jwt cache intersect write_error write_panic env database other uuid unescape cmgr
        getenv connect_db walk answer post_request post_route with_token post_site
        (post_until
          (post_entities getenv connect_db walk answer
            (or_empty (unescape post_request.query.dataset)))
          all
          post_site.post_layer)
        (served jwt cache intersect write_error write_panic env database other uuid unescape cmgr
          getenv connect_db walk answer post_request post_route with_token post_site)
served-posts_example =
    served-posts jwt cache intersect write_error write_panic env database other uuid unescape cmgr
      getenv connect_db walk answer post_request post_route with_token post_site claims other_value
      (value ∷ value ∷ []) (entity ∷ entity ∷ []) strict secured intersect-FindsCommon authenticated
      may_post refl refl (value-entity, (value-entity, tt))
