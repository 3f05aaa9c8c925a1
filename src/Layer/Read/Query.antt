-- ===== src/Layer/Read/Query.antt =====
-- internal/layer/read.go: `buildQuery`. `sprint` is fmt's %s of a value that is no string, and
-- `corrupt` is the message of a base64.CorruptInputError.
use mysql_datalayer.Prelude.{
  not, Option, none, some, List, [], ◌∷◌, ◌++◌, if◌then◌else◌, is_empty, Text, text, contains,
}
use mysql_datalayer.Prelude.Int.{ℤ, is_zero, itoa}
use mysql_datalayer.Prelude.Dict.{Dict}
use mysql_datalayer.Std.Base64.{url_encoding, decode}
use mysql_datalayer.Layer.Error.{Result, ok, err, panic, ◌>>=◌}
use mysql_datalayer.Layer.Any.{Any, str, as_string, index}
use mysql_datalayer.Layer.Key
use mysql_datalayer.Layer.Definition.{DatasetDefinition, OutgoingMapping, get_config_property}

-- The loop over the property mappings: a separator goes before a name once there is some text.
unfoldable pub column_list : Text → List Text → Text
column_list cols [] = cols
column_list cols (p ∷ ps) =
    column_list ((if is_empty cols then cols else cols ++ text ", ") ++ p) ps

-- The columns of the SELECT.
unfoldable pub columns : Text → Option OutgoingMapping → Result Text Text
unfolding column_list
columns entity_column none =
    if is_empty entity_column
    then err (text "outgoing mapping config is missing")
    else ok (text "*")
columns entity_column (some m) = ok (if m.map_all then text "*" else column_list [] m.properties)

-- `SourceConfig[TableName].(string)`
unfoldable pub source_table : {E : Type 0} → Dict Any → Result E Text
source_table config = elim (as_string (index Key.table_name config)) [
  | none ↦ panic
  | some t ↦ ok t
]

-- The query before its conditions.
unfoldable pub base_query : DatasetDefinition → Text → Result Text Text
unfolding source_table
base_query d cols =
    let data_query = get_config_property d.source_config Key.data_query in
    if not (is_empty data_query)
    then ok data_query
    else (source_table d.source_config >>= λ t.
        ok (text "SELECT " ++ (cols ++ (text " FROM " ++ t))))

-- "t.c <= 'max'"
unfoldable pub upper_bound : Text → Text → Text → Text
upper_bound t c max = t ++ b'.' ∷ (c ++ (text " <= '" ++ (max ++ (b'\'' ∷ []))))

-- "t.c > 'since' AND "
unfoldable pub lower_bound : Text → Text → Text → Text
lower_bound t c since = t ++ b'.' ∷ (c ++ (text " > '" ++ (since ++ text "' AND ")))

unfoldable pub limit_clause : ℤ → Text
limit_clause limit = if is_zero limit then [] else text " LIMIT " ++ itoa limit

module _ (sprint : Any → Text) (corrupt : Text → Text) where
  -- fmt's %s
  abbrev show : Any → Text
  show (str s) = s
  show v = sprint v

  -- The conditions on the since column of `t`, behind `connect`.
  unfoldable pub window : (connect t c since max : Text) → Result Text Text
  window connect t c since max =
      if is_empty since
      then ok (connect ++ upper_bound t c max)
      else elim (decode url_encoding since) [
        | none ↦ err (corrupt since)
        | some from ↦ ok (connect ++ (lower_bound t c from ++ upper_bound t c max))
      ]

  -- What follows the query `q` up to the limit.
  unfoldable pub conditions : DatasetDefinition → (q since max : Text) → Result Text Text
  conditions d q since max =
      let since_table = get_config_property d.source_config Key.since_table in
      let since_column = get_config_property d.source_config Key.since_column in
      let connect : Text = if contains q (text "WHERE") then text " AND " else text " WHERE " in
      if is_empty max
      then ok []
      else if not (is_empty since_table)
      then window (connect ++ text " ") since_table since_column since max
      else if not (is_empty since_column)
      then window (text " WHERE ") (show (index Key.table_name d.source_config))
          (show (index Key.since_column d.source_config)) since max
      else ok []

  unfoldable pub build_query : DatasetDefinition → (since max : Text) → ℤ → Result Text Text
  build_query d since max limit = do
    cols ← columns (get_config_property d.source_config Key.entity_column) d.outgoing
    q ← base_query d cols
    w ← conditions d q since max
    ok (q ++ (w ++ limit_clause limit))
