-- ===== src/Layer/Any.antt =====
-- Go values of type `any`, as far as they occur: in the JSON of a configuration, in the columns of a
-- row that is read (the pointers to sql.NullBool and the like), and in an item that is written.
use mysql_datalayer.Prelude.{Bool, false, Option, none, some, Text}
use mysql_datalayer.Prelude.Int.{ℤ}
use mysql_datalayer.Prelude.Dict.{Dict, lookup}
use mysql_datalayer.Std.Float.{Float}
use mysql_datalayer.Std.Time.{Time}

-- The Boolean of a `null_…` value is its field `Valid`. A composite value is known by its JSON.
pub data Any : Type 0 where
  nil : Any
  bool : Bool → Any
  str : Text → Any
  number : Float → Any
  int : ℤ → Any
  time : Time → Any
  composite : Text → Any
  null_bool : Bool → Bool → Any
  null_string : Bool → Text → Any
  null_int64 : Bool → ℤ → Any
  null_int32 : Bool → ℤ → Any
  null_float64 : Bool → Float → Any
  null_time : Bool → Time → Any
  raw_json : Text → Any

-- `v.(string)`, with `none` where the assertion fails.
abbrev pub as_string : Any → Option Text
as_string (str s) = some s
as_string _ = none

-- `m[k]`, which is nil for a missing key.
unfoldable pub index : Text → Dict Any → Any
index k m = elim (lookup k m) [ none ↦ nil | some v ↦ v ]

-- `v == true`
abbrev pub is_true : Any → Bool
is_true (bool b) = b
is_true _ = false
