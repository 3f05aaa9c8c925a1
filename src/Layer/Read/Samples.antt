-- ===== src/Layer/Read/Samples.antt =====
-- The theorems about the reader at concrete data.
use mysql_datalayer.Layer.Key.{entity_column, since_column, since_table}
use mysql_datalayer.Layer.Read.EntityColumn.{new_iterator-mixed_case}
use mysql_datalayer.Prelude.{
  ◌+◌, ℕ, ◌≡◌, ◌≢◌, refl, ap, inr, true, false, Option, none, some, List, [], ◌∷◌, ◌++◌, ◌==◌, map,
  Text, text, is_empty, contains, to_lower, lower_byte, arith,
}
use mysql_datalayer.Prelude.Int.{pos}
use mysql_datalayer.Prelude.Dict.{lookup, insert}
use mysql_datalayer.Std.Time.{Time, zero_time, format_micros, format_seconds, pad}
use mysql_datalayer.Layer.Error.{errorf, internal, or_else, Result, ok, ◌>>=◌}
use mysql_datalayer.Layer.Any.{Any, int, str, null_int64, null_int32, raw_json, index}
use mysql_datalayer.Layer.Key
use mysql_datalayer.Layer.Definition.{DatasetDefinition, get_config_property}
use mysql_datalayer.Layer.Mysql.{RowItem, cell_value, get_value}
use mysql_datalayer.Layer.Read.Query.{
  columns, base_query, upper_bound, lower_bound, limit_clause, build_query, conditions, window,
}
use mysql_datalayer.Layer.Read.Iterator.{
  sql_null_int32, ColumnType, Cursor, DbIterator, latest, max_since, max_since_text, make_row_buf,
  new_iterator, open_iterator, token, column_cell, cell_of, fill, row_entity, item_entity,
  end_of_rows, entity_data,
}
use mysql_datalayer.Layer.Read.Windows.{connect, token_of, LatestIs, new_iterator-resume}
use mysql_datalayer.Layer.Read.Rows.{last_cell, repeat, pull, Reads, pull-rows, unread_column}

abbrev name : Text
name = b'i' ∷ b'd' ∷ []

abbrev sprint : Any → Text
sprint _ = b'?' ∷ []

abbrev corrupt : Text → Text
corrupt s = s

-- A definition with a since column and a since table.
abbrev watched : DatasetDefinition
watched = record {
  dataset_name = name;
  source_config =
      (Key.table_name, str name)
      ∷ (Key.since_table, str name)
      ∷ (Key.since_column, str (b'c' ∷ []))
      ∷ [];
  incoming = none;
  outgoing = some (record { map_all = true; properties = [] });
}

watched_query :
    (columns (get_config_property watched.source_config Key.entity_column) watched.outgoing
      >>= base_query watched)
    ≡ ok (text "SELECT * FROM id")
unfolding columns get_config_property base_query text lookup index ◌==◌
watched_query = refl

has_column : is_empty (get_config_property watched.source_config Key.since_column) ≡ false
unfolding get_config_property text lookup ◌==◌
has_column = refl

has_table : is_empty (get_config_property watched.source_config Key.since_table) ≡ false
unfolding get_config_property text lookup ◌==◌
has_table = refl

abbrev cursor : List Time → Cursor Time
cursor rows = record {
  column_types = ok [];
  column_names = ok [];
  rows = rows;
  rows_error = none;
  close_error = none;
}

abbrev database : Time → Text → Result Text (Cursor Time)
database t q = ok (cursor (t ∷ []))

abbrev scan_time : Time → Result Text (Option Time)
scan_time t = ok (some t)

abbrev later : Time
later = record zero_time { year = 2024 }

latest_is : (t : Time) → LatestIs scan_time watched (database t) (some t)
unfolding latest
latest_is t = (cursor (t ∷ []), refl, refl)

-- The iterator that a first read opens.
abbrev first_read : DbIterator Time
first_read = record {
  cursor = cursor (zero_time ∷ []);
  since = [];
  current_token = token_of (some zero_time);
  row_buf = [];
  columns = [];
  limit = pos 0;
  since_column = b'c' ∷ [];
  entity_column = [];
}

new_iterator_first :
    new_iterator scan_time sprint corrupt (database zero_time) watched [] (pos 0) ≡ ok first_read
unfolding new_iterator max_since latest max_since_text open_iterator make_row_buf build_query
    columns base_query conditions window get_config_property index lookup text ◌==◌ contains
    format_micros format_seconds pad
new_iterator_first = refl

new_iterator-resume_example :
    new_iterator scan_time sprint corrupt (database later) watched (token first_read) (pos 5)
    ≡ open_iterator (database later) watched (token first_read) (pos 5) (token_of (some later)) (
        text "SELECT * FROM id"
        ++ ((connect (text "SELECT * FROM id")
              ++ (lower_bound
                    (get_config_property watched.source_config Key.since_table)
                    (get_config_property watched.source_config Key.since_column)
                    (format_micros zero_time)
                  ++ upper_bound
                      (get_config_property watched.source_config Key.since_table)
                      (get_config_property watched.source_config Key.since_column)
                      (format_micros later)))
            ++ limit_clause (pos 5)))
new_iterator-resume_example =
    new_iterator-resume scan_time sprint corrupt watched (text "SELECT * FROM id") watched_query
      has_column has_table (database zero_time) (database later) zero_time later [] (pos 0) (pos 5)
      first_read (latest_is zero_time) (latest_is later) new_iterator_first

-- Two rows, in a cursor that ends in an error.
abbrev two_rows : DbIterator ℕ
two_rows = record {
  cursor = record {
    column_types = ok [];
    column_names = ok [];
    rows = 1 ∷ 2 ∷ [];
    rows_error = some (b'!' ∷ []);
    close_error = none;
  };
  since = [];
  current_token = [];
  row_buf = [];
  columns = name ∷ [];
  limit = pos 0;
  since_column = [];
  entity_column = [];
}

abbrev scan : List Any → ℕ → Result Text (List Any)
scan buf n = ok (null_int64 true (pos n) ∷ [])

abbrev map_item : RowItem → Result Text Any
map_item item = ok (get_value name item)

abbrev marshal : Any → Result Text Text
marshal _ = ok []

abbrev parse : Text → Result Text (Option Any)
parse _ = ok none

abbrev cells : ℕ → List Any
cells n = null_int64 true (pos n) ∷ []

abbrev entity : ℕ → Any
entity n = int (pos n)

two_rows-Reads : (n : ℕ) → Reads scan map_item marshal parse cells entity two_rows n
unfolding row_entity item_entity fill insert to_lower lower_byte get_value cell_value index lookup
    ◌==◌
two_rows-Reads n = (λ buf. refl, refl)

pull-rows_example :
    pull scan map_item marshal parse (2 + 3) two_rows
    ≡ map (λ r. ok (some (entity r))) (1 ∷ 2 ∷ []) ++ repeat 3 (end_of_rows two_rows)
pull-rows_example =
    pull-rows scan map_item marshal parse cells entity 3 (1 ∷ 2 ∷ []) two_rows refl
      (two_rows-Reads 1, (two_rows-Reads 2, tt))

abbrev narrow : ColumnType
narrow = record { name = name; database_type = text "INT"; scan_type = some sql_null_int32 }

narrow_cell : column_cell narrow ≡ ok (null_int32 false (pos 0))
unfolding column_cell cell_of text ◌==◌
narrow_cell = refl

abbrev one_row : DbIterator ℕ
one_row = record two_rows { row_buf = null_int32 true (pos 7) ∷ [] }

last_of_row : last_cell name one_row.columns one_row.row_buf none ≡ some (null_int32 true (pos 7))
unfolding last_cell to_lower lower_byte ◌==◌
last_of_row = refl

unread_column_example :
    (item : RowItem) × (row_entity scan map_item marshal parse one_row
      ≡ or_else (map_item item) (errorf internal))
    × (get_value name item ≡ str (text "invalid type"))
unread_column_example =
    unread_column scan map_item marshal parse one_row name narrow (null_int32 false (pos 0))
      (null_int32 true (pos 7)) refl (omega arith) last_of_row (inr refl) narrow_cell refl

abbrev first_byte : Text → ℕ
first_byte [] = 0
first_byte (c ∷ s) = c

abbrev lower_i : ℕ
lower_i = 105

apart : lower_i ≢ 73
apart = λ h. omega arith

upper_name : to_lower (b'I' ∷ []) ≢ b'I' ∷ []
unfolding to_lower lower_byte
upper_name = λ e. apart (ap first_byte e)

-- A definition whose entity column has an upper-case name, and its one column.
abbrev upper : DatasetDefinition
upper = record {
  dataset_name = name;
  source_config = (Key.table_name, str name) ∷ (Key.entity_column, str (b'I' ∷ [])) ∷ [];
  incoming = none;
  outgoing = some (record { map_all = true; properties = [] });
}

abbrev upper_rows : Text → Result Text (Cursor Time)
upper_rows query = ok (record {
  column_types =
      ok (record { name = b'I' ∷ []; database_type = text "JSON"; scan_type = none } ∷ []);
  column_names = ok ((b'I' ∷ []) ∷ []);
  rows = [];
  rows_error = none;
  close_error = none;
})

upper_iterator :
    (it : DbIterator Time) × (new_iterator scan_time sprint corrupt upper_rows upper [] (pos 0)
      ≡ ok it)
unfolding new_iterator max_since get_config_property lookup ◌==◌ text build_query columns base_query
    index conditions open_iterator make_row_buf column_cell
upper_iterator = (_, refl)

upper_column :
    to_lower (get_config_property upper.source_config Key.entity_column)
    ≢ get_config_property upper.source_config Key.entity_column
unfolding get_config_property index lookup text ◌==◌
upper_column = upper_name

abbrev scan_json : List Any → Time → Result Text (List Any)
scan_json buf t = ok (raw_json (b'1' ∷ []) ∷ [])

new_iterator-mixed_case_example :
    (entity_data marshal upper_iterator.0.entity_column upper_iterator.0.columns
        (raw_json (b'1' ∷ []) ∷ [])
      ≡ ok [])
    × (row_entity scan_json map_item marshal parse
          (record upper_iterator.0 { row_buf = raw_json (b'1' ∷ []) ∷ [] })
        ≡ row_entity scan_json map_item marshal parse upper_iterator.0)
new_iterator-mixed_case_example =
    new_iterator-mixed_case scan_time sprint corrupt upper_rows scan_json map_item marshal parse
      upper [] (pos 0) upper_iterator.0 (raw_json (b'1' ∷ []) ∷ []) upper_column upper_iterator.1
