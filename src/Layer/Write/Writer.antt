-- ===== src/Layer/Write/Writer.antt =====
-- internal/layer/write.go: `MysqlWriter` and its methods.
--
-- The database driver is `answer`: its answer to the last of the calls made so far, which stand with
-- the latest first; `none` is success. A Go map is walked in an order that the runtime chooses:
-- `order` is that choice for the pending inserts. The mapper of the common-datalayer library is
-- `map_entity`: the `SetValue` calls that it makes on the item, or its error.
use mysql_datalayer.Prelude.{
  ℕ, ◌+◌, Bool, true, false, ◌||◌, Option, none, some, List, [], ◌∷◌, ◌++◌, leb, if◌then◌else◌,
  Text, text, ◌==◌,
}
use mysql_datalayer.Prelude.Int.{ℤ, pos}
use mysql_datalayer.Prelude.Dict.{Dict, lookup, insert}
use mysql_datalayer.Std.Float.{to_int}
use mysql_datalayer.Layer.Error.{
  LayerError, err_generic, err_not_supported, Result, ok, err, panic, ◌>>=◌, Outcome, done, failed,
  panicked,
}
use mysql_datalayer.Layer.Any.{Any, number, as_string, index, is_true}
use mysql_datalayer.Layer.Key
use mysql_datalayer.Layer.Definition.{DatasetDefinition, IncomingProperty, get_config_property}
use mysql_datalayer.Layer.Mysql.{RowItem, set_value}
use mysql_datalayer.Layer.Write.Sql.{insert_statement}

-- The fields of `egdm.Entity` that the writer and the mapper read.
pub record Entity : Type 0 where
  pub id : Text
  pub is_deleted : Bool
  pub recorded : ℕ
  pub properties : Dict Any

pub record EntityInsert : Type 0 where
  pub id : Text
  pub recorded : ℕ
  pub row_item : RowItem
  pub insert_string : Text

pub data Call : Type 0 where
  begin_tx : Call
  exec : Text → Call
  rollback : Call
  commit : Call

abbrev pub Driver : Type 0
Driver = List Call → Option Text

-- `tx` is whether the pointer to the transaction is set.
pub record MysqlWriter : Type 0 where
  pub table : Text
  pub id_column : Text
  pub since_column : Text
  pub since_precision : Text
  pub batch_inserts : Dict EntityInsert
  pub delete_ids : List Text
  pub batch_size : ℕ
  pub flush_threshold : ℤ
  pub append_mode : Bool
  pub property_mappings : List IncomingProperty
  pub tx : Bool
  pub calls : List Call

-- `flushThreshold := 1000`, unless the option overrides it.
threshold_option : Option Any → Result LayerError ℤ
threshold_option none = ok (pos 1000)
threshold_option (some (number f)) = ok (to_int f)
threshold_option (some _) = err (err_generic (text "flush threshold must be an integer"))

-- The property of the first identity mapping, or "id".
unfoldable pub identity_column : List IncomingProperty → Text
identity_column [] = text "id"
identity_column (m ∷ ms) = if m.is_identity then m.property else identity_column ms

no_table : Text → LayerError
no_table name = err_generic (text "table name not found in source config for dataset " ++ name)

table_option : Text → Option Text → Result LayerError Text
table_option name none = err (no_table name)
table_option name (some table) = ok table

-- A nil `IncomingMappingConfig` is dereferenced.
incoming_option : Option (List IncomingProperty) → Result LayerError (List IncomingProperty)
incoming_option none = panic
incoming_option (some mappings) = ok mappings

unfoldable pub new_mysql_writer : DatasetDefinition → Result LayerError MysqlWriter
unfolding threshold_option table_option incoming_option no_table identity_column
new_mysql_writer d = do
  table ← table_option d.dataset_name (as_string (index Key.table_name d.source_config))
  threshold ← threshold_option (lookup Key.flush_threshold d.source_config)
  mappings ← incoming_option d.incoming
  ok (record {
    table = table;
    id_column = identity_column mappings;
    since_column = get_config_property d.source_config Key.since_column;
    since_precision = get_config_property d.source_config Key.since_precision;
    batch_inserts = [];
    delete_ids = [];
    batch_size = 0;
    flush_threshold = threshold;
    append_mode = is_true (index Key.append_mode d.source_config);
    property_mappings = mappings;
    tx = false;
    calls = [];
  })

-- The item that the mapper's calls build, with the deleted flag.
unfoldable pub build_item : List (Text × Any) → Bool → RowItem → RowItem
build_item [] deleted r = record r { deleted = deleted }
build_item ((name, v) ∷ sets) deleted r = build_item sets deleted (set_value name v r)

abbrev pub empty_item : RowItem
empty_item = record { map = []; columns = []; values = []; deleted = false }

-- `item.Map[o.idColumn].(string)`
unfoldable pub item_id : Text → RowItem → Option Text
item_id column item = as_string (index column item.map)

unfoldable pub member : Text → List Text → Bool
member k [] = false
member k (j ∷ js) = j == k || member k js

unfoldable pub note_id : Text → List Text → List Text
note_id id ids = if member id ids then ids else ids ++ (id ∷ [])

abbrev pub add_delete_id : Text → MysqlWriter → MysqlWriter
add_delete_id id w = record w { delete_ids = note_id id w.delete_ids }

-- The statements of the pending inserts, in the order of the walk.
unfoldable pub insert_strings : Dict EntityInsert → List Text
insert_strings [] = []
insert_strings ((_, p) ∷ inserts) = p.insert_string ∷ insert_strings inserts

module _ (sprint : Any → Text) where
  -- `insert`: it never fails, and panics where the identity is no string.
  unfoldable pub insert_item : RowItem → MysqlWriter → MysqlWriter × Outcome Text
  insert_item item w = elim (item_id w.id_column item) [
    | none ↦ (w, panicked)
    | some id ↦
        let statement =
          insert_statement sprint w.property_mappings w.table w.since_column w.since_precision
            item in
        let blank : EntityInsert = record {
          id = [];
          recorded = 0;
          row_item = empty_item;
          insert_string = [];
        } in
        let old : EntityInsert = elim (lookup id w.batch_inserts) [ none ↦ blank | some p ↦ p ] in
        (
          record w {
            batch_inserts = insert id (record old { insert_string = statement }) w.batch_inserts;
            batch_size = w.batch_size + 1;
          },
          done,
        )
  ]

  -- A new or newer version of an entity is put into the batch, and its INSERT is built.
  unfoldable pub put_insert : Entity → RowItem → Text → MysqlWriter → MysqlWriter × Outcome Text
  unfolding insert_item
  put_insert e item id w =
      let pending : EntityInsert = record {
        id = id;
        recorded = e.recorded;
        row_item = item;
        insert_string = [];
      } in
      insert_item item (record w { batch_inserts = insert id pending w.batch_inserts })

  -- The part of `Write` after the id was noted, up to the test of the threshold.
  unfoldable pub stage : Entity → RowItem → Text → MysqlWriter → MysqlWriter × Outcome Text
  stage e item id w =
      if e.is_deleted
      then (record w { batch_size = w.batch_size + 1 }, done)
      else elim (lookup id w.batch_inserts) [
        | none ↦ put_insert e item id w
        | some existing ↦
            if leb existing.recorded e.recorded then put_insert e item id w else (w, done)
      ]

abbrev pub failure : Option Text → Text → Outcome Text
failure none e = failed e
failure (some e₂) e =
    failed (text "failed to rollback transaction: " ++ (e₂ ++ (text ", underlying: " ++ e)))

module _ (answer : Driver) where
  -- `o.tx.ExecContext(…)`, and the rollback where it fails. A nil transaction is dereferenced.
  unfoldable pub exec_or_rollback : Text → MysqlWriter → MysqlWriter × Outcome Text
  exec_or_rollback statement w =
      if w.tx
      then elim (answer (exec statement ∷ w.calls)) [
        | none ↦ (record w { calls = exec statement ∷ w.calls }, done)
        | some e ↦
            let calls = rollback ∷ exec statement ∷ w.calls in
            (record w { calls = calls }, failure (answer calls) e)
      ]
      else (w, panicked)

  unfoldable pub begin : MysqlWriter → MysqlWriter × Outcome Text
  begin w = elim (answer (begin_tx ∷ w.calls)) [
    | none ↦ (record w { calls = begin_tx ∷ w.calls; tx = true }, done)
    | some e ↦ (record w { calls = begin_tx ∷ w.calls }, failed e)
  ]

  -- `common_err` is `common.Err`, which is called here also where there is no error.
  unfoldable pub incremental :
      (Option Text → Option LayerError)
      → DatasetDefinition
      → Result LayerError (MysqlWriter × Option LayerError)
  unfolding new_mysql_writer begin
  incremental common_err d = do
    w ← new_mysql_writer d
    let (w', outcome) = begin w
    ok (w', common_err (elim outcome [ failed e ↦ some e | _ ↦ none ]))

unfoldable pub full_sync : Result LayerError MysqlWriter
full_sync = err err_not_supported
