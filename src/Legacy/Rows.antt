-- ===== src/Legacy/Rows.antt =====
-- internal/legacy/layers/layer.go: `toEntity`. `other` is the rest of fmt.Sprintf, as in Std/Format,
-- and `uuid` the text of the UUID with the bytes given. A HexNullBool is stored by its pointer, and
-- encoded before the next row is scanned, so that its value stands for it.
pub mod Build
pub mod Typed
pub mod Total
mod Samples
use mysql_datalayer.Prelude.{
  ℕ, zero, suc, ◌+◌, ◌-◌, ◌*◌, ◌≡◌, refl, Bool, true, false, not, ◌&&◌, ◌||◌, Option, none, some,
  List, [], ◌∷◌, ◌++◌, Text, text, ◌==◌, is_empty, leb, nat_eq, if◌then◌else◌,
}
use mysql_datalayer.Prelude.Int.{ℤ, pos, negsuc, itoa}
use mysql_datalayer.Prelude.Dict.{Dict, lookup, insert}
use mysql_datalayer.Std.Base64.{std_encoding, encode}
use mysql_datalayer.Std.Float.{Float}
use mysql_datalayer.Std.Time.{Time}
use mysql_datalayer.Std.Format.{sprintf}
use mysql_datalayer.Layer.Error.{Result, ok, err, panic, ◌>>=◌}
use mysql_datalayer.Layer.Any.{Any, nil, bool, str, number, int, time}
use mysql_datalayer.Legacy.Conf.{Datalayer, TableMapping, ColumnMapping}
use mysql_datalayer.Legacy.Post.{Entity}
use mysql_datalayer.Legacy.Datasets.{
  Cell, null_int64, null_string, null_time, null_float64, hex_null_bool, raw_bytes, row_cell,
  ignore_column, one_of, int_types, string_types, time_types, float_types,
}

-- A cell of the row buffer with what was scanned into it; the first Boolean is the field `Valid`.
pub data Raw : Type 0 where
  raw_nil : Raw
  raw_int : Bool → ℤ → Raw
  raw_string : Bool → Text → Raw
  raw_time : Bool → Time → Raw
  raw_float : Bool → Float → Raw
  raw_bool : Bool → Raw
  raw_data : Option Text → Raw

digits : ℕ → Text → Option ℕ
digits n [] = some n
digits n (c ∷ s) =
    let rest = digits (n * 10 + (c - b'0')) s in if leb b'0' c && leb c b'9' then rest else none

in_int64 : Bool → Option ℕ → Option ℤ
in_int64 negative none = none
in_int64 false (some n) = if leb n 9223372036854775807 then some (pos n) else none
in_int64 true (some zero) = some (pos 0)
in_int64 true (some (suc n)) = if leb n 9223372036854775807 then some (negsuc n) else none

some_digits : Text → Option ℕ
unfolding digits
some_digits [] = none
some_digits (c ∷ s) = digits 0 (c ∷ s)

-- `strconv.ParseInt(s, 10, 64)`
unfoldable pub to_int64 : Text → Option ℤ
unfolding some_digits in_int64
to_int64 [] = none
to_int64 (c ∷ s) =
    if nat_eq c b'-'
    then in_int64 true (some_digits s)
    else if nat_eq c b'+'
    then in_int64 false (some_digits s)
    else in_int64 false (some_digits (c ∷ s))

-- What the type switch makes of a cell: the value of the property, if it is set, and `strVal`.
abbrev pub Converted : Type 0
Converted = Option Any × Text

abbrev set_if : Bool → Any → Text → Converted
set_if true v s = (some v, s)
set_if false v s = (none, [])

abbrev from_string : Raw → Result Text Converted
from_string (raw_string valid s) = ok (set_if valid (str s) s)
from_string _ = panic

abbrev from_time : Raw → Result Text Converted
from_time (raw_time valid t) = ok (set_if valid (time t) [])
from_time _ = panic

abbrev from_int : Raw → Result Text Converted
from_int (raw_int valid i) = ok (set_if valid (int i) (itoa i))
from_int _ = panic

abbrev from_float : Raw → Result Text Converted
from_float (raw_float valid x) = ok (set_if valid (number x) [])
from_float _ = panic

abbrev from_bool : Raw → Result Text Converted
from_bool (raw_bool b) = ok (some (bool b), [])
from_bool _ = panic

abbrev from_data : (Text → Converted) → Raw → Result Text Converted
from_data f (raw_data none) = ok (none, [])
from_data f (raw_data (some s)) = ok (f s)
from_data f _ = panic

abbrev big_int : Text → Converted
big_int s = elim (to_int64 s) [ none ↦ (none, []) | some i ↦ (some (int i), itoa i) ]

abbrev pub blob_types : List Text
blob_types = text "TINYBLOB" ∷ text "BLOB" ∷ []

unfoldable pub convert : (uuid : Text → Text) → Text → Raw → Result Text Converted
convert uuid ct raw =
    if one_of ct string_types
    then from_string raw
    else if ct == text "UNIQUEIDENTIFIER"
    then from_data (λ s. (some (str (uuid s)), [])) raw
    else if one_of ct time_types
    then from_time raw
    else if one_of ct int_types
    then from_int raw
    else if ct == text "BIGINT"
    then from_data big_int raw
    else if one_of ct float_types
    then from_float raw
    else if ct == text "BIT"
    then from_bool raw
    else if one_of ct blob_types
    then from_data (λ s. (some (str (encode std_encoding s)), [])) raw
    else ok (none, [])

abbrev is_one : ℤ → Bool
is_one (pos n) = nat_eq n 1
is_one (negsuc n) = false

-- The column "__$operation" tells of a deletion; it has to be an integer.
unfoldable pub operation : Text → Raw → Entity → Result Text Entity
operation col (raw_int valid i) e =
    if col == text "__$operation" && valid && is_one i
    then ok (record e { is_deleted = true })
    else ok e
operation col raw e = if col == text "__$operation" then panic else ok e

-- Whether the column is left out, and the name of its property.
unfoldable pub is_skipped : TableMapping → Text → Option ColumnMapping → Bool
is_skipped t col none = ignore_column col t
is_skipped t col (some m) = m.ignore_column

unfoldable pub property_of : Text → Option ColumnMapping → Text
property_of col none = text "ns0:" ++ col
property_of col (some m) = if is_empty m.property_name then text "ns0:" ++ col else m.property_name
