-- ===== src/Legacy/Web/Batches/Samples.antt =====
-- The batches of a request at concrete data.
use mysql_datalayer.Prelude.{◌≡◌, refl, false, some, List, [], ◌∷◌, ◌==◌, All, Text, text}
use mysql_datalayer.Prelude.Dict.{lookup}
use mysql_datalayer.Layer.Error.{failed, Outcome, done}
use mysql_datalayer.Legacy.Post.{Entity}
use mysql_datalayer.Legacy.Web.Batches.{
  add_entity, bad_request, emit_entity, go_on, parse_stream, respond, respond_last, Value, object,
  other_value, str_member, as_entity, entity_of, id_member, deleted_member, props_member,
  post_handler,
}
use mysql_datalayer.Legacy.Web.Batches.Laws.{
  IsAnswer, post_handler_cases, post_until, concat, IsBatch, post_handler_cases,
}

abbrev finish : List (List Entity) → List (List Entity)
finish s = s

abbrev value : Value
value = object ((text "id", str_member (b'e' ∷ [])) ∷ [])

abbrev entity : Entity
entity = record { id = b'e' ∷ []; is_deleted = false; references = []; properties = [] }

value-entity : as_entity value ≡ some entity
unfolding as_entity id_member deleted_member props_member entity_of lookup text ◌==◌
value-entity = refl

-- A store that refuses a second batch.
abbrev keep_one : List Entity → List (List Entity) → List (List Entity) × Outcome Text
keep_one es [] = (es ∷ [], done)
keep_one es (b ∷ s) = (b ∷ s, failed (b'f' ∷ []))

abbrev values : List Value
values = other_value ∷ value ∷ value ∷ []

abbrev message : Text
message = b'm' ∷ []

post_handler_cases_example :
    (all : List (List Entity)) × (concat all ≡ entity ∷ entity ∷ [])
    × All IsBatch all
    × IsAnswer finish keep_one message
        (post_until keep_one all ((entity ∷ []) ∷ []))
        (post_handler finish keep_one message values ((entity ∷ []) ∷ []))
post_handler_cases_example =
    post_handler_cases finish keep_one message other_value (value ∷ value ∷ [])
      (entity ∷ entity ∷ []) ((entity ∷ []) ∷ []) (value-entity, (value-entity, tt))

refused_test :
    post_handler finish keep_one message values ((entity ∷ []) ∷ [])
    ≡ ((entity ∷ []) ∷ [], bad_request (b'f' ∷ []))
unfolding post_handler parse_stream emit_entity add_entity go_on respond respond_last as_entity
    id_member deleted_member props_member entity_of lookup text ◌==◌
refused_test = refl
