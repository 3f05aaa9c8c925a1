-- ===== src/Layer/Write/Tests.antt =====
-- A batch that is written, flushed and committed, on a driver that answers every call.
use mysql_datalayer.Prelude.{
  ℕ, ◌≡◌, refl, ◌⊎◌, inr, Bool, true, false, Option, none, some, List, [], ◌∷◌, Text, text, ◌==◌,
  to_lower, join,
}
use mysql_datalayer.Layer.Write.Flush.{flush_inserts, flush_deletes, flush, flush_if_full}
use mysql_datalayer.Layer.Write.Writer.{
  build_item, item_id, stage, put_insert, insert_item, exec_or_rollback, note_id, member,
  insert_strings,
}
use mysql_datalayer.Layer.Write.Sql.{
  insert_statement, delete_transaction, insert_transaction, sql_val,
}
use mysql_datalayer.Layer.Mysql.{set_value}
use mysql_datalayer.Layer.Definition.{get_config_property}
use mysql_datalayer.Layer.Any.{index}
use mysql_datalayer.Std.Time.{pad, format_seconds}
use mysql_datalayer.Std.Time.Parse.{parse_rfc3339}
use mysql_datalayer.Std.Float.{to_int}
use mysql_datalayer.Prelude.Int.{pos}
use mysql_datalayer.Layer.Error.{LayerError, ok, Result}
use mysql_datalayer.Layer.Any.{Any, str, number}
use mysql_datalayer.Layer.Definition.{DatasetDefinition}
use mysql_datalayer.Layer.Write.Writer.{
  Entity, Call, exec, begin_tx, commit, new_mysql_writer, begin, MysqlWriter,
}
use mysql_datalayer.Layer.Write.Flush.{write, close}
use mysql_datalayer.Prelude.Dict.{lookup, insert}

abbrev definition : DatasetDefinition
definition = record {
  dataset_name = text "products";
  source_config =
      (text "table_name", str (text "Product"))
      ∷ (text "since_column", str (text "Changed"))
      ∷ (text "flush_threshold", number (record { mantissa = pos 3; scale = 0 }))
      ∷ [];
  incoming = some (
      record { property = text "id"; is_identity = true; datatype = [] }
      ∷ record { property = text "day"; is_identity = false; datatype = text "datetime" }
      ∷ []);
  outgoing = none;
}

abbrev mapper : Entity → Text ⊎ List (Text × Any)
mapper e = inr ((text "id", str e.id) ∷ (text "day", str (text "2024-02-03T04:05:06Z")) ∷ [])

abbrev entity : Text → Bool → ℕ → Entity
entity id deleted recorded = record {
  id = id;
  is_deleted = deleted;
  recorded = recorded;
  properties = [];
}

abbrev quiet : List Call → Option Text
quiet _ = none

abbrev sprint : Any → Text
sprint _ = text "?"

-- What a run of the writer computes with.
writer_code : Unit {0}
unfolding new_mysql_writer begin write close item_id build_item flush flush_if_full flush_deletes
    flush_inserts stage put_insert insert_item exec_or_rollback note_id member insert_strings
    insert_statement delete_transaction insert_transaction sql_val join to_lower set_value
    get_config_property index lookup insert text ◌==◌ to_int parse_rfc3339 format_seconds pad
writer_code = tt

calls_of : Result LayerError MysqlWriter → List Call
calls_of (ok w) =
    let (w₁, _) = begin quiet w in
    let (w₂, _) = write sprint quiet (λ _ m. m) mapper (entity (text "p1") false 5) w₁ in
    let (w₃, _) = write sprint quiet (λ _ m. m) mapper (entity (text "p2") true 6) w₂ in
    let (w₄, _) = close sprint quiet (λ _ m. m) w₃ in w₄.calls
calls_of _ = []

run_test :
    calls_of (new_mysql_writer definition)
    ≡ commit
      ∷ exec (
          text
            "BEGIN;\n\nINSERT INTO Product (id, day, changed) VALUES ('p1', '2024-02-03 04:05:06', NOW(6));\nCOMMIT;")
      ∷ exec (text "BEGIN;\n\nDELETE FROM Product WHERE id IN ('p1', 'p2');\nCOMMIT;")
      ∷ begin_tx
      ∷ []
unfolding calls_of writer_code
run_test = refl
