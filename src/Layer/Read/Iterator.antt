-- ===== src/Layer/Read/Iterator.antt =====
-- internal/layer/read.go: `newIterator`, the row iterator and the dataset's `Changes` and
-- `Entities`. A cursor of package database/sql is the rows it still has, with the errors that it
-- reports. Parameters are the answers of the database, `scan` and `scan_time` for Rows.Scan,
-- the mapper's MapItemToEntity, json.Marshal, and the entity parser with the entity that its
-- callback left. Closing the cursor of the query for the latest change is not modelled.
use mysql_datalayer.Prelude.{
  Bool, true, false, Option, none, some, List, [], ◌∷◌, ◌++◌, map, Text, text, ◌==◌, ◌||◌, is_empty,
  to_lower, if◌then◌else◌,
}
use mysql_datalayer.Prelude.Int.{ℤ, pos}
use mysql_datalayer.Prelude.Dict.{Dict, insert}
use mysql_datalayer.Std.Base64.{url_encoding, encode}
use mysql_datalayer.Std.Float.{Float}
use mysql_datalayer.Std.Time.{Time, zero_time, format_micros}
use mysql_datalayer.Layer.Error.{
  LayerError, Result, ok, err, panic, ◌>>=◌, or_else, errorf, internal, not_supported, err_query,
}
use mysql_datalayer.Layer.Any.{
  Any, null_bool, null_string, null_int64, null_int32, null_float64, null_time, raw_json,
}
use mysql_datalayer.Layer.Key
use mysql_datalayer.Layer.Definition.{DatasetDefinition, get_config_property}
use mysql_datalayer.Layer.Mysql.{RowItem}
use mysql_datalayer.Layer.Read.Query.{build_query, source_table}

-- The Go types that the code tells apart among the scan types of a column.
pub data ScanType : Type 0 where
  go_bool go_int go_float go_time sql_null_int32 sql_null_time other_type : ScanType

pub record ColumnType : Type 0 where
  pub name : Text
  pub database_type : Text
  pub scan_type : Option ScanType

pub record Cursor (Row : Type 0) : Type 0 where
  pub column_types : Result Text (List ColumnType)
  pub column_names : Result Text (List Text)
  pub rows : List Row
  pub rows_error : Option Text
  pub close_error : Option Text

pub record DbIterator (Row : Type 0) : Type 0 where
  pub cursor : Cursor Row
  pub since : Text
  pub current_token : Text
  pub row_buf : List Any
  pub columns : List Text
  pub limit : ℤ
  pub since_column : Text
  pub entity_column : Text

zero_float : Float
zero_float = record { mantissa = pos 0; scale = 0 }

-- The cell that a column of a scan type is read into.
unfoldable pub cell_of : ScanType → Any
unfolding zero_float
cell_of go_bool = null_bool false false
cell_of go_int = null_int64 false (pos 0)
cell_of go_float = null_float64 false zero_float
cell_of go_time = null_time false zero_time
cell_of sql_null_int32 = null_int32 false (pos 0)
cell_of sql_null_time = null_time false zero_time
cell_of other_type = null_string false []

unfoldable pub column_cell : ColumnType → Result LayerError Any
unfolding cell_of
column_cell c =
    if c.database_type == text "JSONB" || c.database_type == text "JSON"
    then ok (raw_json [])
    else elim c.scan_type [
      | none ↦ err (err_query (text "no scan type for column " ++ c.name))
      | some st ↦ ok (cell_of st)
    ]

-- The loop that makes the row buffer.
unfoldable pub make_row_buf : List ColumnType → Result LayerError (List Any)
make_row_buf [] = ok []
make_row_buf (c ∷ cs) = column_cell c >>= λ cell. make_row_buf cs >>= λ buf. ok (cell ∷ buf)

-- The map of a row item: `it.rowBuf[i]` panics behind the buffer.
unfoldable pub fill : Dict Any → List Text → List Any → Result LayerError (Dict Any)
fill m [] buf = ok m
fill m (c ∷ cs) [] = panic
fill m (c ∷ cs) (v ∷ buf) = fill (insert (to_lower c) v m) cs buf

unfoldable pub max_since_query : Text → Text → Text
max_since_query column table =
    text "SELECT MAX(" ++ (column ++ (text ") AS \"_MAX_SINCE\" FROM " ++ table))

module _ {Row : Type 0} (scan_time : Row → Result Text (Option Time)) where
  -- The latest change: its Boolean tells whether the column has a value.
  unfoldable pub latest : Cursor Row → Result LayerError (Option Time)
  latest cursor = elim cursor.rows [
    | [] ↦ err (errorf internal (text "failed to get max since"))
    | r ∷ _ ↦ or_else (scan_time r) err_query
  ]

  -- The first part of `newIterator`: the latest change and the token.
  unfoldable pub max_since :
      (Text → Result Text (Cursor Row)) → DatasetDefinition → Result LayerError (Option Time × Text)
  max_since query_context d =
      let since_col = get_config_property d.source_config Key.since_column in
      let since_table = get_config_property d.source_config Key.since_table in
      if is_empty since_col then ok (none, []) else do
        table ← if is_empty since_table then source_table d.source_config else ok since_table
        cursor ← or_else (query_context (max_since_query since_col table)) (errorf internal)
        max ← latest cursor
        ok (max, encode url_encoding (format_micros (elim max [ none ↦ zero_time | some t ↦ t ])))

unfoldable pub max_since_text : Option Time → Text
max_since_text none = []
max_since_text (some t) = format_micros t

module _ {Row : Type 0} (query_context : Text → Result Text (Cursor Row)) where
  -- The iterator on the rows of a query.
  unfoldable pub open_iterator :
      DatasetDefinition
      → (since : Text) → ℤ
      → (token query : Text) → Result LayerError (DbIterator Row)
  open_iterator d since limit token query = do
    cursor ← or_else (query_context query) err_query
    types ← or_else cursor.column_types err_query
    names ← or_else cursor.column_names err_query
    buf ← make_row_buf types
    ok (record {
      cursor = cursor;
      since = since;
      current_token = token;
      row_buf = buf;
      columns = map to_lower names;
      limit = limit;
      since_column = get_config_property d.source_config Key.since_column;
      entity_column = get_config_property d.source_config Key.entity_column;
    })

module _ {Row : Type 0} (scan_time : Row → Result Text (Option Time)) (sprint : Any → Text)
    (corrupt : Text → Text) (query_context : Text → Result Text (Cursor Row)) where
  unfoldable pub new_iterator :
      DatasetDefinition → (since : Text) → ℤ → Result LayerError (DbIterator Row)
  unfolding max_since_text
  new_iterator d since limit = do
    found ← max_since scan_time query_context d
    query ← or_else (build_query sprint corrupt d since (max_since_text (found.0)) limit) err_query
    open_iterator query_context d since limit (found.1) query

  unfoldable pub changes :
      DatasetDefinition
      → (since : Text) → ℤ
      → (latest_only : Bool) → Result LayerError (DbIterator Row)
  changes d since limit true =
      err (errorf not_supported (text "latest only operation not supported"))
  changes d since limit false = new_iterator d since limit

  unfoldable pub entities :
      DatasetDefinition → (from : Text) → ℤ → Result LayerError (DbIterator Row)
  entities d from limit = changes d from limit false

-- The JSON of the entity column, and "" where no column has its name.
unfoldable pub entity_data :
    (Any → Result Text Text) → Text → List Text → List Any → Result LayerError Text
entity_data marshal name [] buf = ok []
entity_data marshal name (c ∷ cs) [] = if c == name then panic else entity_data marshal name cs []
entity_data marshal name (c ∷ cs) (v ∷ buf) =
    let rest = entity_data marshal name cs buf in
    if c == name then or_else (marshal v) (errorf internal) else rest

-- What `Next` returns behind the last row: nil, or the error of the rows.
unfoldable pub end_of_rows :
    {Row Entity : Type 0} → DbIterator Row → Result LayerError (Option Entity)
end_of_rows it = elim it.cursor.rows_error [ none ↦ ok none | some e ↦ err (errorf internal e) ]

unfoldable pub advance : {Row : Type 0} → DbIterator Row → List Row → DbIterator Row
advance it rows = record it { cursor = record it.cursor { rows = rows } }

module _ {Row Entity : Type 0} (scan : List Any → Row → Result Text (List Any))
    (map_item : RowItem → Result Text Entity) (marshal : Any → Result Text Text)
    (parse : Text → Result Text (Option Entity)) where
  -- The entity of the row item of the columns.
  unfoldable pub item_entity : DbIterator Row → Result LayerError Entity
  item_entity it = do
    m ← fill [] it.columns it.row_buf
    or_else (map_item (record { map = m; columns = it.columns; values = []; deleted = false }))
        (errorf internal)

  -- The entity in the entity column, put behind an empty context.
  unfoldable pub column_entity : DbIterator Row → Result LayerError Entity
  column_entity it = do
    json ← entity_data marshal it.entity_column it.columns it.row_buf
    found ←
        or_else
          (parse (text "[{\"id\" : \"@context\", \"namespaces\" : {} }, " ++ (json ++ text " ]")))
          (errorf internal)
    elim found [ none ↦ err (errorf internal (text "no entity")) | some e ↦ ok e ]

  unfoldable pub row_entity : DbIterator Row → Result LayerError Entity
  row_entity it = if is_empty it.entity_column then item_entity it else column_entity it

  -- `Next` behind the scan of a row into the buffer.
  unfoldable pub scanned :
      DbIterator Row → Result Text (List Any) → DbIterator Row × Result LayerError (Option Entity)
  scanned it (ok buf) =
      let filled = record it { row_buf = buf } in (filled, row_entity filled >>= λ e. ok (some e))
  scanned it (err e) = (it, err (errorf internal e))
  scanned it panic = (it, panic)

  -- `Next` with the rows that the cursor has left.
  unfoldable pub next_of :
      DbIterator Row → List Row → DbIterator Row × Result LayerError (Option Entity)
  next_of it [] = (it, end_of_rows it)
  next_of it (r ∷ rs) = scanned (advance it rs) (scan it.row_buf r)

  unfoldable pub next : DbIterator Row → DbIterator Row × Result LayerError (Option Entity)
  next it = next_of it it.cursor.rows

-- The token of the continuation: "" is the token of a new one.
unfoldable pub token : {Row : Type 0} → DbIterator Row → Text
token it = it.current_token

unfoldable pub close : {Row : Type 0} → DbIterator Row → Result LayerError Unit
close it = elim it.cursor.close_error [ none ↦ ok tt | some e ↦ err (errorf internal e) ]
