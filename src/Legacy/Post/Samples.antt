-- ===== src/Legacy/Post/Samples.antt =====
-- The transaction of the older layer at concrete data.
use mysql_datalayer.Prelude.{false, ◌≡◌, refl, ◌⊎◌, Option, none, List, [], ◌∷◌, Text}
use mysql_datalayer.Prelude.Int.{pos}
use mysql_datalayer.Prelude.Dict.{Dict}
use mysql_datalayer.Layer.Error.{done, panicked}
use mysql_datalayer.Layer.Any.{Any, str}
use mysql_datalayer.Legacy.Conf.{PostMapping, FieldMapping}
use mysql_datalayer.Legacy.Post.{Entity, Call, begin_tx, commit, ordered_fields, run_transaction}
use mysql_datalayer.Legacy.Post.Laws.{Stored, RolledBack, run_transaction_cases}

abbrev walk : Dict Any → Dict Any
walk m = m

-- A driver that accepts every call.
abbrev quiet : List Call → Option Text
quiet calls = none

abbrev field : FieldMapping
field = record { field_name = b'a' ∷ []; to_my_sql_field = []; sort_order = pos 1; type_ = [] }

abbrev mapping : PostMapping
mapping = record {
  dataset_name = b'd' ∷ [];
  table_name = b't' ∷ [];
  query = b'q' ∷ [];
  id_column = b'a' ∷ [];
  config = none;
  field_mappings = field ∷ [];
}

abbrev entity : Entity
entity = record {
  id = [];
  is_deleted = false;
  references = [];
  properties = (b'n' ∷ b':' ∷ b'a' ∷ [], str (b'v' ∷ [])) ∷ [];
}

run_transaction_cases_example :
    ((after : List Call) × Stored walk quiet mapping
        (ordered_fields (field ∷ []))
        (entity ∷ entity ∷ [])
        (begin_tx ∷ [])
        after
      × (run_transaction walk quiet mapping (entity ∷ entity ∷ []) [] ≡ (commit ∷ after, done)))
    ⊎ (RolledBack walk quiet mapping (run_transaction walk quiet mapping (entity ∷ entity ∷ []) [])
        ⊎ ((run_transaction walk quiet mapping (entity ∷ entity ∷ []) []).1 ≡ panicked))
run_transaction_cases_example =
    run_transaction_cases walk quiet mapping (entity ∷ entity ∷ []) [] refl
