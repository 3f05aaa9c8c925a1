-- ===== src/Layer/Mysql.antt =====
-- internal/layer/mysql.go: the row item between the mapper and the database.
use mysql_datalayer.Prelude.{
  Bool, true, false, ◌&&◌, List, [], ◌∷◌, ◌++◌, if◌then◌else◌, Text, text,
}
use mysql_datalayer.Prelude.Dict.{Dict, insert}
use mysql_datalayer.Std.Float.{Float, to_int, equals_int}
use mysql_datalayer.Layer.Any.{
  Any, nil, bool, str, number, int, time, null_bool, null_string, null_int64, null_float64,
  null_time, index,
}

pub record RowItem : Type 0 where
  pub map : Dict Any
  pub columns : List Text
  pub values : List Any
  pub deleted : Bool

valid : Bool → Any → Any
valid true v = v
valid false v = nil

float_value : Float → Any
float_value v = let i = to_int v in if equals_int v i then int i else number v

-- The type switch of `GetValue`.
unfoldable pub cell_value : Any → Any
unfolding valid float_value
cell_value (null_bool ok v) = bool (ok && v)
cell_value (null_string ok v) = valid ok (str v)
cell_value (null_int64 ok v) = valid ok (int v)
cell_value (null_float64 ok v) = valid ok (float_value v)
cell_value (null_time ok v) = valid ok (time v)
cell_value nil = nil
cell_value _ = str (text "invalid type")

unfoldable pub get_value : Text → RowItem → Any
unfolding cell_value index
get_value name r = cell_value (index name r.map)

unfoldable pub set_value : Text → Any → RowItem → RowItem
set_value name v r = record r {
  columns = r.columns ++ (name ∷ []);
  values = r.values ++ (v ∷ []);
  map = insert name v r.map;
}

unfoldable pub native_item : RowItem → Dict Any
native_item r = r.map

unfoldable pub get_property_names : RowItem → List Text
get_property_names r = r.columns
