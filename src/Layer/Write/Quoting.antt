-- ===== src/Layer/Write/Quoting.antt =====
-- internal/layer/write.go: `sqlVal` of a text, against the way in which a database reads a string
-- literal: up to the closing quote, where a doubled quote is a quote and a backslash keeps the
-- character behind it.
use mysql_datalayer.Prelude.{
  ℕ, ◌≡◌, refl, ◌≢◌, ◌⊎◌, inl, inr, Option, none, some, List, [], ◌∷◌, ◌++◌, append_assoc,
  append-nil, arith, nat_eq, if◌then◌else◌, Bool-cases, All, Text, text, ◌==◌,
}
use mysql_datalayer.Std.Time.{Time, format_seconds, format_offset}
use mysql_datalayer.Std.Time.Parse.{parse_rfc3339}
use mysql_datalayer.Std.Time.Plain.{IsDateByte, format_seconds-All, format_offset-All}
use mysql_datalayer.Layer.Any.{Any, str}
use mysql_datalayer.Layer.Definition.{IncomingProperty}
use mysql_datalayer.Layer.Write.Sql.{quoted, null_text, date_or_null, string_val, sql_val}

-- The value of the literal whose opening quote was read, and the text behind it.
literal_body : Text → Text → Option (Text × Text)
literal_body read [] = none
literal_body read (c ∷ []) = if nat_eq c b'\'' then some (read, []) else none
literal_body read (c ∷ d ∷ s) =
    let plain = literal_body (read ++ c ∷ []) (d ∷ s) in
    let pair = literal_body (read ++ d ∷ []) s in
    if nat_eq c b'\''
    then if nat_eq d b'\'' then pair else some (read, d ∷ s)
    else if nat_eq c b'\\'
    then pair
    else plain

unfoldable pub read_literal : Text → Option (Text × Text)
unfolding literal_body
read_literal [] = none
read_literal (c ∷ s) = if nat_eq c b'\'' then literal_body [] s else none

-- Neither a quote nor a backslash.
abbrev pub IsPlain : ℕ → Type 0
IsPlain c = (c ≢ b'\'') × (c ≢ b'\\')

-- The text does not go on with a quote.
abbrev pub NoQuoteNext : Text → Type 0
NoQuoteNext [] = Unit
NoQuoteNext (c ∷ s) = c ≢ b'\''

literal_body-plain :
    (read v rest : Text)
    → All IsPlain v
    → NoQuoteNext rest
    → literal_body read (v ++ b'\'' ∷ rest) ≡ some (read ++ v, rest)
unfolding literal_body
literal_body-plain read [] [] _ _ = rw (append-nil read)
literal_body-plain read [] (d ∷ rest) _ h = ground (arith, append-nil read)
literal_body-plain read (c ∷ []) rest (p, ps) h =
    let ih = literal_body-plain (read ++ c ∷ []) [] rest ps h in
    ground (arith, ih, append-nil (read ++ c ∷ []))
literal_body-plain read (c ∷ d ∷ v) rest (p, ps) h =
    let ih = literal_body-plain (read ++ c ∷ []) (d ∷ v) rest ps h in
    ground (arith, ih, append_assoc read (c ∷ []) (d ∷ v))

-- Every date byte is plain.
IsDateByte-IsPlain : (s : Text) → All IsDateByte s → All IsPlain s
IsDateByte-IsPlain [] _ = tt
IsDateByte-IsPlain (c ∷ s) (p, ps) = (omega arith, IsDateByte-IsPlain s ps)

pub read_literal-quoted :
    (v rest : Text)
    → All IsPlain v
    → NoQuoteNext rest
    → read_literal (quoted v ++ rest) ≡ some (v, rest)
unfolding read_literal quoted
read_literal-quoted v rest plain next =
    rw (append_assoc v (b'\'' ∷ []) rest) (literal_body-plain [] v rest plain next)

-- A literal of a plain text, or NULL.
abbrev pub IsPlainLiteral : Text → Type 0
IsPlainLiteral s = (s ≡ null_text) ⊎ ((v : Text) × All IsPlain v × (s ≡ quoted v))

date_or_null-literal :
    (format : Time → Text) (t : Option Time)
    → ((t' : Time) → All IsDateByte (format t'))
    → IsPlainLiteral (date_or_null format t)
unfolding date_or_null
date_or_null-literal format none h = inl refl
date_or_null-literal format (some t) h = inr (format t, IsDateByte-IsPlain (format t) (h t), refl)

string_val-literal :
    (mappings : List IncomingProperty) (v col : Text)
    → All IsPlain v
    → IsPlainLiteral (string_val mappings v col)
unfolding string_val
string_val-literal [] v col plain = inr (v, plain, refl)
string_val-literal (m ∷ ms) v col plain =
    let later = string_val-literal ms v col plain in
    let seconds = date_or_null-literal format_seconds (parse_rfc3339 v) format_seconds-All in
    let offset = date_or_null-literal format_offset (parse_rfc3339 v) format_offset-All in
    elim (Bool-cases (m.property == col)) [
      | inr other ↦ rw other later
      | inl named ↦ rw named (elim (Bool-cases (m.datatype == text "datetime")) [
        | inl date ↦ rw date seconds
        | inr no_date ↦ rw no_date (elim (Bool-cases (m.datatype == text "timestamp")) [
          | inl stamp ↦ rw stamp offset
          | inr no_stamp ↦ rw no_stamp later
        ])
      ])
    ]

-- Whatever the property mappings, `sqlVal` of a text without quotes and backslashes is NULL or a
-- literal that is read back whole where no quote follows it, so that what follows is read as SQL
-- again.
pub sql_val-literal :
    (sprint : Any → Text) (mappings : List IncomingProperty) (v col rest : Text)
    → All IsPlain v
    → NoQuoteNext rest
    → (sql_val sprint mappings (str v) col ≡ null_text)
      ⊎ ((t : Text) × (sql_val sprint mappings (str v) col ≡ quoted t)
          × (read_literal (sql_val sprint mappings (str v) col ++ rest) ≡ some (t, rest)))
unfolding sql_val
sql_val-literal sprint mappings v col rest plain next =
    elim (string_val-literal mappings v col plain) [
      | inl null ↦ inl null
      | inr (t, plain_t, same) ↦ inr (t, same, rw same (read_literal-quoted t rest plain_t next))
    ]

-- A quote in a value is not escaped: without property mappings, the literal ends at the first quote
-- that no quote follows, if there are neither quotes nor backslashes before it, and what the value
-- holds behind it is read as SQL.
pub sql_val_injection :
    (sprint : Any → Text) (before after col rest : Text)
    → All IsPlain before
    → NoQuoteNext (after ++ (b'\'' ∷ rest))
    → read_literal (sql_val sprint [] (str (before ++ b'\'' ∷ after)) col ++ rest)
      ≡ some (before, after ++ b'\'' ∷ rest)
unfolding sql_val string_val quoted read_literal
sql_val_injection sprint before after col rest plain next =
    rw
      (
        append_assoc (before ++ b'\'' ∷ after) (b'\'' ∷ []) rest,
        append_assoc before (b'\'' ∷ after) (b'\'' ∷ rest),
      )
      (literal_body-plain [] before (after ++ b'\'' ∷ rest) plain next)
