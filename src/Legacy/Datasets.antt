-- ===== src/Legacy/Datasets.antt =====
-- internal/legacy/layers/layer.go: the datasets that can be read, by name, and the row buffer.
use mysql_datalayer.Prelude.{
  ltb, ℕ, ◌%◌, ◌+◌, ◌/◌, ◌≡◌, refl, ap, inl, inr, Bool, true, false, ◌&&◌, ◌||◌, Option, none, some,
  List, [], ◌∷◌, ◌++◌, map, Text, text, ◌==◌, eq_iff, has_prefix, is_empty, if◌then◌else◌,
  Bool-cases,
}
use mysql_datalayer.Layer.Error.{Result, ok, err, panic}
use mysql_datalayer.Legacy.Conf.{Datalayer, TableMapping, PostMapping}

unfoldable pub get_dataset_post_names : Datalayer → List Text
get_dataset_post_names d = map (λ t. PostMapping.dataset_name t) d.post_mappings

unfoldable pub get_dataset_names : Datalayer → List Text
get_dataset_names d = map (λ t. TableMapping.table_name t) d.table_mappings

unfoldable pub find_table : Text → List TableMapping → Option TableMapping
find_table name [] = none
find_table name (t ∷ ts) =
    let rest = find_table name ts in if t.table_name == name then some t else rest

unfoldable pub get_table_mapping : Datalayer → Text → Option TableMapping
get_table_mapping d name = find_table name d.table_mappings

unfoldable pub has_name : Text → List Text → Bool
has_name name [] = false
has_name name (n ∷ ns) = let rest = has_name name ns in if n == name then true else rest

unfoldable pub does_dataset_exist : Datalayer → Text → Bool
does_dataset_exist d name = has_name name (get_dataset_names d)

-- A context, by its namespaces; its id is "@context".
unfoldable pub context_of : Datalayer → Option TableMapping → Result Text (List (Text × Text))
context_of d none = panic
context_of d (some t) =
    let namespace = if is_empty t.name_space then t.table_name else t.name_space in
    ok (
      (text "ns0", d.base_name_space ++ (namespace ++ text "/"))
      ∷ (text "rdf", text "http://www.w3.org/1999/02/22-rdf-syntax-ns#")
      ∷ [])

-- `GetContext`, which dereferences the table definition.
unfoldable pub get_context : Datalayer → Text → Result Text (List (Text × Text))
get_context d name = context_of d (get_table_mapping d name)

-- The cells that a row is scanned into.
pub data Cell : Type 0 where
  null_int64 null_string null_time null_float64 hex_null_bool raw_bytes : Cell

unfoldable pub one_of : Text → List Text → Bool
one_of name [] = false
one_of name (n ∷ ns) = name == n || one_of name ns

abbrev pub int_types : List Text
int_types = text "INT" ∷ text "SMALLINT" ∷ text "TINYINT" ∷ []

abbrev pub string_types : List Text
string_types = text "VARCHAR" ∷ text "NVARCHAR" ∷ text "TEXT" ∷ text "NTEXT" ∷ []

abbrev pub time_types : List Text
time_types = text "DATETIME" ∷ text "DATE" ∷ text "TIMESTAMP" ∷ []

abbrev pub float_types : List Text
float_types = text "MONEY" ∷ text "DECIMAL" ∷ text "FLOAT" ∷ text "DOUBLE" ∷ []

-- The cell of a column, by the name of its database type.
unfoldable pub row_cell : Text → Cell
row_cell ct_type =
    if one_of ct_type int_types
    then null_int64
    else if one_of ct_type string_types
    then null_string
    else if one_of ct_type time_types
    then null_time
    else if one_of ct_type float_types
    then null_float64
    else if ct_type == text "BIT"
    then hex_null_bool
    else raw_bytes

unfoldable pub build_row_type : List Text → List Text → Result Text (List Cell)
build_row_type [] types = ok []
build_row_type (c ∷ cs) [] = panic
build_row_type (c ∷ cs) (t ∷ ts) = elim (build_row_type cs ts) [
  | ok cells ↦ ok (row_cell t ∷ cells)
  | err e ↦ err e
  | panic ↦ panic
]

-- hex.EncodeToString
unfoldable pub hex_digit : ℕ → ℕ
hex_digit n = if ltb n 10 then n + b'0' else n + 87

unfoldable pub hex_encode : Text → Text
unfolding hex_digit
hex_encode [] = []
hex_encode (c ∷ s) = hex_digit (c / 16) ∷ hex_digit (c % 16) ∷ hex_encode s

unfoldable pub hex_case : Text → Bool → Bool
hex_case hex b = if hex == text "00" then false else if hex == text "01" then true else b

-- `HexNullBool.Scan`, whose Boolean is that of the row before: `src` is none if it is no []byte.
unfoldable pub scan_hex : (src : Option Text) → Bool → Bool
unfolding hex_case hex_encode
scan_hex none b = hex_case [] false
scan_hex (some bytes) b = hex_case (hex_encode bytes) b

-- A bit field of two bytes keeps what the row before left.
scan_hex_test : (b : Bool) → scan_hex (some (0 ∷ 1 ∷ [])) b ≡ b
unfolding scan_hex ◌==◌ text
scan_hex_test b = refl

unfoldable pub ignore_column : Text → TableMapping → Bool
ignore_column column t = t.cdc_enabled && has_prefix column (text "__$")

find_table-has_name :
    (name : Text) (ts : List TableMapping)
    → has_name name (map (λ t. TableMapping.table_name t) ts) ≡ true
    → (t : TableMapping) × (find_table name ts ≡ some t) × (t.table_name ≡ name)
unfolding has_name find_table
find_table-has_name name [] h = cc
find_table-has_name name (t ∷ ts) h = elim (Bool-cases (t.table_name == name)) [
  | inl same ↦ (t, rw same refl, (eq_iff t.table_name name).0 same)
  | inr other ↦
      (let (found, e, named) = find_table-has_name name ts (rw other at h) in
        (found, rw other e, named))
]

-- A handler that has found the dataset to exist gets its context, with the table's name space, or
-- the table's name where it has none, behind the base name space.
pub get_context-exists :
    (d : Datalayer) (name : Text)
    → does_dataset_exist d name ≡ true
    → (t : TableMapping) × (get_table_mapping d name ≡ some t)
      × (t.table_name ≡ name)
      × (get_context d name ≡ context_of d (some t))
unfolding does_dataset_exist get_dataset_names get_table_mapping get_context
get_context-exists d name h =
    let (t, e, named) = find_table-has_name name d.table_mappings h in
    (t, e, named, ap (context_of d) e)
