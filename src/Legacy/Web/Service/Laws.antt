-- ===== src/Legacy/Web/Service/Laws.antt =====
-- internal/legacy/web: requests to the service, from the token to the response.
use mysql_datalayer.Legacy.Web.Server.Refused.{serve-refused}
use mysql_datalayer.Layer.Any.{Any}
use mysql_datalayer.Layer.Error.{Outcome, Result, done, ok, panicked}
use mysql_datalayer.Legacy.Changes.{
  Database, Repository, Rows, ensure_connection, run_query, server_since,
}
use mysql_datalayer.Legacy.Changes.Calls.{Emits, token_entities}
use mysql_datalayer.Legacy.Conf.{TableMapping}
use mysql_datalayer.Legacy.Datasets.{
  Cell, build_row_type, does_dataset_exist, get_context, get_table_mapping,
}
use mysql_datalayer.Legacy.Environment.{Env}
use mysql_datalayer.Legacy.Manager.{ConfigurationManager}
use mysql_datalayer.Legacy.Post.{Call, Entity, PostLayer}
use mysql_datalayer.Legacy.Query.{build_table_query, new_query}
use mysql_datalayer.Legacy.Web.Auth.{Cached, Jwt}
use mysql_datalayer.Legacy.Web.Auth.Laws.{IsAuthenticated}
use mysql_datalayer.Legacy.Web.Datasets.{Reply, get_changes_handler}
use mysql_datalayer.Legacy.Web.Datasets.Laws.{array_of, get_changes-array, new_reply, request_of}
use mysql_datalayer.Legacy.Web.Http.{Handler, Context, CustomClaims, HttpError}
use mysql_datalayer.Legacy.Web.Server.{
  serve, Route, get_changes, is_noop, logged, recovered, serve_route, setup_jwt, skipper,
}
use mysql_datalayer.Legacy.Web.Server.Allowed.{FindsCommon, serve-allowed}
use mysql_datalayer.Legacy.Web.Server.Laws.{IsAuthorized, IsIntersection, serve-IsSecured}
use mysql_datalayer.Legacy.Web.Service.{Request, Site, handlers, with_changes}
use mysql_datalayer.Prelude.{List, Option, Text, false, inl, inr, refl, some, true, ◌++◌, ◌≡◌, ◌⊎◌}
use mysql_datalayer.Prelude.Dict.{Dict}

-- The responses of the framework, on the site.
abbrev pub write_reply :
    {Conn : Type 0} → (HttpError → Reply → Reply) → HttpError → Site Conn → Site Conn
write_reply write_error e s = record s { reply = write_error e s.reply }

abbrev pub write_recovered : {Conn : Type 0} → (Reply → Reply) → Site Conn → Site Conn
write_recovered write_panic s = record s { reply = write_panic s.reply }

module _ {Key Conn : Type 0} (jwt : Jwt Key) (new_cache : Text → Text → Result Text Cached)
    (intersect : List Text → List Text → List Text) (write_error : HttpError → Reply → Reply)
    (write_panic : Reply → Reply) (env : Env) (database : Database Conn)
    (other : Text → List Text → Text) (uuid : Text → Text) (unescape : Text → Option Text)
    (cmgr : ConfigurationManager) (getenv : Text → Text) (connect_db : Text → Result Text Conn)
    (walk : Dict Any → Dict Any) (answer : List Call → Option Text) (request : Request)
    (route : Route) (c : Context) where
  -- The service on a request.
  abbrev pub served : Site Conn → Site Conn × Outcome HttpError
  served s =
      serve_route jwt new_cache intersect (write_reply write_error) (write_recovered write_panic)
        env (handlers database other uuid unescape cmgr getenv connect_db walk answer request) route
        c s

  -- A request without a token that may use the route.
  abbrev pub IsUnauthorized : Type 0
  IsUnauthorized =
      (claims : CustomClaims)
      → IsAuthenticated jwt (setup_jwt new_cache env) c claims
      → IsAuthorized route.scopes c claims
      → ⊥

  -- What `intersect.Simple` returns is in both lists. The middleware is not "noop", the path is not
  -- one of a health endpoint, and the request has no token that may use its route. Then the handler
  -- of the route is not run, whatever its operation: the request ends as it would with any other
  -- handler in its place. The answer is 401 or 403, and nothing but the response is changed; or the
  -- parsing of the token panics, and nothing is changed.
  pub served-unauthorized :
      (s : Site Conn) (any_handler : Handler (Site Conn))
      → IsIntersection intersect
      → is_noop env ≡ false
      → skipper c ≡ false
      → IsUnauthorized
      → (served s
          ≡ serve jwt new_cache intersect
              (write_reply write_error)
              (write_recovered write_panic)
              env
              route.scopes
              any_handler
              c
              s)
        × (((e : HttpError) × ((e.code ≡ 401) ⊎ (e.code ≡ 403))
              × (served s ≡ (write_reply write_error e s, done)))
            ⊎ (served s ≡ (s, panicked)))
  unfolding serve_route
  served-unauthorized s any_handler both strict kept refused =
      let handler =
        handlers database other uuid unescape cmgr getenv connect_db walk answer request
          route.operation in
      let same =
        serve-refused jwt new_cache intersect (write_reply write_error)
          (write_recovered write_panic) env route.scopes handler any_handler c s both strict kept
          refused in
      (
        same,
        elim (serve-IsSecured jwt new_cache intersect both (write_reply write_error)
            (write_recovered write_panic) env route.scopes handler c s strict kept) [
              | inl (claims, valid, allowed, e) ↦ absurd (refused claims valid allowed)
              | inr (inl (e, codes, result)) ↦ inl (e, codes, result)
              | inr (inr result) ↦ inr result
            ],
      )

  served-changes :
      (s : Site Conn) (claims : CustomClaims) (repo : Repository Conn) (reply : Reply)
      → is_noop env ≡ false
      → skipper c ≡ false
      → FindsCommon intersect
      → IsAuthenticated jwt (setup_jwt new_cache env) c claims
      → IsAuthorized route.scopes c claims
      → route.operation ≡ get_changes
      → get_changes_handler database other uuid unescape cmgr request.query s.repo s.reply
        ≡ ((repo, reply), done)
      → served s ≡ (record s { repo = repo; reply = reply }, done)
  unfolding serve_route handlers with_changes logged recovered
  served-changes s claims repo reply strict kept finds valid allowed asks result =
      rw
        (
          serve-allowed jwt new_cache intersect (write_reply write_error)
              (write_recovered write_panic) env route.scopes
              (handlers database other uuid unescape cmgr getenv connect_db walk answer request
                route.operation)
              c s claims strict kept finds valid allowed,
          asks,
          result,
        )
        refl

  -- The middleware is not "noop", the path is not one of a health endpoint, and `intersect.Simple`
  -- finds what two lists have in common. A request for the changes of a dataset has a token that is
  -- parsed with the keys of the service and passed by the checks of an audience and an issuer that
  -- it need not have, and that may use the route. The name of the dataset can be unescaped, the
  -- dataset exists, a connection to the database is there or can be made, the server gives its
  -- time, and the query of the dataset can be run and its rows be mapped. Then the whole service
  -- answers 200 with one array: the context, the entities of the rows in their order, and behind
  -- them, if the changes of the table are captured, the token of the server's time; it keeps the
  -- connection of the reading layer, and leaves the writing layer as it was.
  pub served-changes_array :
      (claims : CustomClaims) (name : Text) (t : TableMapping) (context : List (Text × Text))
      (repo connected_repo : Repository Conn) (post_layer : PostLayer Conn) (since : Text)
      (rows : Rows) (cells : List Cell) (es : List Entity)
      → is_noop env ≡ false
      → skipper c ≡ false
      → FindsCommon intersect
      → IsAuthenticated jwt (setup_jwt new_cache env) c claims
      → IsAuthorized route.scopes c claims
      → route.operation ≡ get_changes
      → unescape request.query.dataset ≡ some name
      → does_dataset_exist cmgr.datalayer name ≡ true
      → get_context cmgr.datalayer name ≡ ok context
      → get_table_mapping cmgr.datalayer name ≡ some t
      → ensure_connection database cmgr repo ≡ (connected_repo, done)
      → server_since database connected_repo ≡ ok since
      → run_query database connected_repo
          (build_table_query other (new_query (request_of request.query name) t))
        ≡ ok rows
      → build_row_type rows.columns rows.types ≡ ok cells
      → Emits other uuid cmgr.datalayer t rows.columns rows.types cells rows.scans es
      → served (record { repo = repo; post_layer = post_layer; reply = new_reply }) ≡ (
        record {
          repo = connected_repo;
          post_layer = post_layer;
          reply = record {
            code = some 200;
            pieces = array_of context (es ++ token_entities t since);
          };
        },
        done,
      )
  served-changes_array claims name t context repo connected_repo post_layer since rows cells es
        strict kept finds valid allowed asks named exists given_context found ensured timed ran
        typed emits =
      served-changes (record { repo = repo; post_layer = post_layer; reply = new_reply }) claims
        connected_repo _ strict kept finds valid allowed asks
        (get_changes-array database other uuid unescape cmgr request.query name t context repo
          connected_repo since rows cells es named exists given_context found ensured timed ran
          typed emits)
