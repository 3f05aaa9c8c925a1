-- ===== src/Legacy/Web/Batches.antt =====
-- internal/legacy/web/posthandler.go: the handler posts the entities of a request in batches. A
-- value of the request's JSON is known as far as the code tells values apart. `post` is the
-- `PostEntities` of a store `S` and `finish` what the handler does to the store before it
-- answers 200; `handle_post` has those of the older layer, for the unescaped name of the dataset.
pub mod Laws
mod Samples
use mysql_datalayer.Legacy.Web.Server.{post}
use mysql_datalayer.Prelude.Dict.{Dict, lookup}
use mysql_datalayer.Layer.Any.{Any}
use mysql_datalayer.Layer.Error.{Result}
use mysql_datalayer.Legacy.Post.{Entity, Call, PostLayer}
use mysql_datalayer.Legacy.Post.Store.{post_entities}
use mysql_datalayer.Prelude.{
  not, ℕ, zero, suc, ◌+◌, ◌≡◌, refl, ap, ◌∙◌, Bool, true, false, Option, none, some, List, [], ◌∷◌,
  ◌++◌, map, nat_eq, if◌then◌else◌, Bool-cases, length, Text, text, append_assoc, append-nil, arith,
  length-append,
}
use mysql_datalayer.Layer.Error.{Outcome, done, failed, panicked}

abbrev pub batch_size : ℕ
batch_size = 1000

pub data Member : Type 0 where
  str_member : Text → Member
  bool_member : Bool → Member
  object_member : Dict Any → Member
  other_member : Member

-- The `Value` of a jstream.MetaValue.
pub data Value : Type 0 where
  object : Dict Member → Value
  other_value : Value

-- `raw["id"].(string)`, with `none` where it panics, as in what follows.
unfoldable pub id_member : Option Member → Option Text
id_member (some (str_member s)) = some s
id_member _ = none

unfoldable pub deleted_member : Option Member → Option Bool
deleted_member none = some false
deleted_member (some (bool_member b)) = some b
deleted_member (some _) = none

unfoldable pub props_member : Option Member → Option (Dict Any)
props_member none = some []
props_member (some (object_member m)) = some m
props_member (some _) = none

unfoldable pub entity_of : Option Text → Option Bool → Option (Dict Any) → Option Entity
entity_of (some id) (some deleted) (some props) =
    some (record { id = id; is_deleted = deleted; references = []; properties = props })
entity_of _ _ _ = none

unfoldable pub as_entity : Value → Option Entity
unfolding id_member deleted_member props_member entity_of
as_entity other_value = none
as_entity (object raw) =
    entity_of (id_member (lookup (text "id") raw)) (deleted_member (lookup (text "deleted") raw))
      (props_member (lookup (text "props") raw))

pub record Pending (S : Type 0) : Type 0 where
  pub is_first : Bool
  pub read : ℕ
  pub entities : List Entity
  pub store : S

-- A response: 200, or 400 with a message.
pub data Response : Type 0 where
  no_content : Response
  bad_request : Text → Response
  server_panic : Response

module _ {S : Type 0} (finish : S → S) (post : List Entity → S → S × Outcome Text) where
  -- Behind a post of the full batch `es`, which stays where the post failed.
  unfoldable pub posted : List Entity → S × Outcome Text → Pending S × Outcome Text
  posted es (s, done) = (record { is_first = false; read = 0; entities = []; store = s }, done)
  posted es (s, failed e) =
      (record { is_first = false; read = 0; entities = es; store = s }, failed e)
  posted es (s, panicked) =
      (record { is_first = false; read = 0; entities = es; store = s }, panicked)

  unfoldable pub add_entity : Entity → Pending S → Pending S × Outcome Text
  add_entity e p =
      let es = p.entities ++ (e ∷ []) in
      if nat_eq (p.read + 1) batch_size
      then posted es (post es p.store)
      else (record p { entities = es; read = p.read + 1 }, done)

  -- The callback on a value of the stream, with the entity of the value.
  unfoldable pub emit_entity : Option Entity → Pending S → Pending S × Outcome Text
  emit_entity found p =
      if p.is_first
      then (record p { is_first = false }, done)
      else elim found [ none ↦ (p, panicked) | some e ↦ add_entity e p ]

  unfoldable pub go_on :
      (Pending S → Pending S × Outcome Text) → Pending S × Outcome Text → Pending S × Outcome Text
  go_on next (p, done) = next p
  go_on next (p, failed e) = (p, failed e)
  go_on next (p, panicked) = (p, panicked)

  unfoldable pub parse_stream : List Value → Pending S → Pending S × Outcome Text
  parse_stream [] p = (p, done)
  parse_stream (v ∷ vs) p = go_on (parse_stream vs) (emit_entity (as_entity v) p)

  unfoldable pub respond_last : S × Outcome Text → S × Response
  respond_last (s, done) = (finish s, no_content)
  respond_last (s, failed e) = (s, bad_request e)
  respond_last (s, panicked) = (s, server_panic)

  -- The rest of the handler, behind the stream.
  unfoldable pub respond : (could_not_parse : Text) → Pending S × Outcome Text → S × Response
  respond could_not_parse (p, done) =
      if nat_eq p.read 0
      then (finish p.store, no_content)
      else respond_last (post p.entities p.store)
  respond could_not_parse (p, failed e) = (p.store, bad_request could_not_parse)
  respond could_not_parse (p, panicked) = (p.store, server_panic)

  unfoldable pub post_handler : (could_not_parse : Text) → List Value → S → S × Response
  post_handler could_not_parse values s =
      respond could_not_parse
        (parse_stream values (record { is_first = true; read = 0; entities = []; store = s }))

-- The handler on the older layer: the connection is closed and forgotten at the end.
unfoldable pub handle_post :
    {Conn : Type 0} (getenv : Text → Text) (connect_db : Text → Result Text Conn)
    (walk : Dict Any → Dict Any) (answer : List Call → Option Text) (name : Text)
    → List Value
    → PostLayer Conn
    → PostLayer Conn × Response
handle_post getenv connect_db walk answer name =
    post_handler (λ l. record l { db = none }) (post_entities getenv connect_db walk answer name)
      (text "could not parse the json payload")
