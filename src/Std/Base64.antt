-- ===== src/Std/Base64.antt =====
-- base64 with padding and either alphabet of encoding/base64: `URLEncoding` for the continuation
-- tokens of the layer, `StdEncoding` for the legacy one. Decoding is Go's: line breaks are skipped,
-- padding is required, and the unused bits of the last group are ignored.
pub mod RoundTrip
use mathlib.Core.Option
use mysql_datalayer.Prelude.{
  ℕ, ◌+◌, ◌-◌, ◌*◌, ◌/◌, ◌%◌, Bool, true, false, ◌&&◌, ◌||◌, Option, none, some, List, [], ◌∷◌,
  ◌++◌, Text, text, ltb, leb, nat_eq, if◌then◌else◌, ◌≡◌, refl,
}

-- The two characters that tell the alphabets apart.
pub record Encoding : Type 0 where
  pub minus : ℕ
  pub slash : ℕ

abbrev pub url_encoding : Encoding
url_encoding = record { minus = b'-'; slash = b'_' }

abbrev pub std_encoding : Encoding
std_encoding = record { minus = b'+'; slash = b'/' }

encode_digit : Encoding → ℕ → ℕ
encode_digit e n =
    if ltb n 26
    then n + 65
    else if ltb n 52
    then n + 71
    else if ltb n 62
    then n - 4
    else if nat_eq n 62
    then e.minus
    else e.slash

decode_digit : Encoding → ℕ → Option ℕ
decode_digit e c =
    if leb b'A' c && leb c b'Z'
    then some (c - 65)
    else if leb b'a' c && leb c b'z'
    then some (c - 71)
    else if leb b'0' c && leb c b'9'
    then some (c + 4)
    else if nat_eq c e.minus
    then some 62
    else if nat_eq c e.slash
    then some 63
    else none

-- `EncodeToString`
unfoldable pub encode : Encoding → Text → Text
unfolding encode_digit
encode e [] = []
encode e (a ∷ []) = encode_digit e (a / 4) ∷ encode_digit e (a % 4 * 16) ∷ b'=' ∷ b'=' ∷ []
encode e (a ∷ b ∷ []) =
    encode_digit e (a / 4)
    ∷ encode_digit e (a % 4 * 16 + b / 16)
    ∷ encode_digit e (b % 16 * 4)
    ∷ b'='
    ∷ []
encode e (a ∷ b ∷ c ∷ s) =
    encode_digit e (a / 4)
    ∷ encode_digit e (a % 4 * 16 + b / 16)
    ∷ encode_digit e (b % 16 * 4 + c / 64)
    ∷ encode_digit e (c % 64)
    ∷ encode e s

infixl 5 ◌>>=◌
abbrev ◌>>=◌ {ℓ κ} : {A : Type ℓ} {B : Type κ} → Option A → (A → Option B) → Option B
none >>= k = none
some a >>= k = k a

is_newline : ℕ → Bool
is_newline c = nat_eq c 10 || nat_eq c 13

skip_newlines : Text → Text
skip_newlines [] = []
skip_newlines (c ∷ s) = let rest = skip_newlines s in if is_newline c then rest else c ∷ rest

-- The last group, if it is padded.
decode_one : Encoding → ℕ → ℕ → Text → Option Text
decode_one e a b [] = do x ← decode_digit e a; y ← decode_digit e b; some ((x * 4 + y / 16) ∷ [])
decode_one e a b (_ ∷ _) = none

decode_two : Encoding → ℕ → ℕ → ℕ → Text → Option Text
decode_two e a b c [] = do
  x ← decode_digit e a
  y ← decode_digit e b
  z ← decode_digit e c
  some ((x * 4 + y / 16) ∷ (y % 16 * 16 + z / 4) ∷ [])
decode_two e a b c (_ ∷ _) = none

-- A whole group, before what the rest of the text decodes to.
decode_four : Encoding → ℕ → ℕ → ℕ → ℕ → Option Text → Option Text
decode_four e a b c d later = do
  x ← decode_digit e a
  y ← decode_digit e b
  z ← decode_digit e c
  w ← decode_digit e d
  rest ← later
  some ((x * 4 + y / 16) ∷ (y % 16 * 16 + z / 4) ∷ (z % 4 * 64 + w) ∷ rest)

decode_groups : Encoding → Text → Option Text
decode_groups e [] = some []
decode_groups e (a ∷ b ∷ c ∷ d ∷ s) =
    let whole = decode_four e a b c d (decode_groups e s) in
    if nat_eq d b'='
    then if nat_eq c b'=' then decode_one e a b s else decode_two e a b c s
    else whole
decode_groups e (_ ∷ _) = none

-- `DecodeString`, with `none` for a CorruptInputError.
unfoldable pub decode : Encoding → Text → Option Text
unfolding decode_groups decode_one decode_two decode_four decode_digit skip_newlines is_newline
decode e s = decode_groups e (skip_newlines s)

encode_test : encode url_encoding (text "2006-01-02") ≡ text "MjAwNi0wMS0wMg=="
unfolding encode text
encode_test = refl

decode_test : decode url_encoding (text "MjAwNi0wMS0wMg==") ≡ some (text "2006-01-02")
unfolding decode text
decode_test = refl

decode_error : decode url_encoding (text "MjAwNi0wMS0wMg") ≡ none
unfolding decode text
decode_error = refl
