-- ===== src/Std/Base64/RoundTrip.antt =====
-- Decoding what was encoded gives the bytes back.
use mysql_datalayer.Prelude.{
  ℕ, ◌+◌, ◌*◌, ◌/◌, ◌%◌, ◌<◌, ◌≡◌, refl, false, some, [], ◌∷◌, arith, nat_eq, All, Text,
}
use mysql_datalayer.Std.Base64.{
  Encoding, std_encoding, decode_four, decode_two, decode_one, is_newline, decode_groups,
  skip_newlines, encode_digit, encode, decode_digit, decode, url_encoding,
}

abbrev pub IsByte : ℕ → Type 0
IsByte c = c < 256

-- The digits of an encoding can be told apart, and are neither line breaks nor padding.
pub IsAlphabet : Encoding → Type 0
IsAlphabet e =
    (n : ℕ)
    → n < 64
    → (decode_digit e (encode_digit e n) ≡ some n)
      × (is_newline (encode_digit e n) ≡ false)
      × (nat_eq (encode_digit e n) b'=' ≡ false)

pub url_encoding-IsAlphabet : IsAlphabet url_encoding
unfolding IsAlphabet decode_digit encode_digit is_newline
url_encoding-IsAlphabet n h = (ground arith, ground arith, ground arith)

pub std_encoding-IsAlphabet : IsAlphabet std_encoding
unfolding IsAlphabet decode_digit encode_digit is_newline
std_encoding-IsAlphabet n h = (ground arith, ground arith, ground arith)

-- The bytes that the digits of a group stand for.
group_first : (a b : ℕ) → b < 256 → a / 4 * 4 + (a % 4 * 16 + b / 16) / 16 ≡ a
group_first a b h = omega arith

group_one : (a : ℕ) → a / 4 * 4 + a % 4 * 16 / 16 ≡ a
group_one a = omega arith

group_last : (a b : ℕ) → b < 256 → (a % 4 * 16 + b / 16) % 16 * 16 + b % 16 * 4 / 4 ≡ b
group_last a b h = omega arith

group_second :
    (a b c : ℕ)
    → b < 256
    → c < 256
    → (a % 4 * 16 + b / 16) % 16 * 16 + (b % 16 * 4 + c / 64) / 4 ≡ b
group_second a b c hb hc = omega arith

group_third : (b c : ℕ) → c < 256 → (b % 16 * 4 + c / 64) % 4 * 64 + c % 64 ≡ c
group_third b c h = omega arith

skip_pads : skip_newlines (b'=' ∷ b'=' ∷ []) ≡ b'=' ∷ b'=' ∷ []
unfolding skip_newlines is_newline
skip_pads = refl

skip_pad : skip_newlines (b'=' ∷ []) ≡ b'=' ∷ []
unfolding skip_newlines is_newline
skip_pad = refl

skip_nil : skip_newlines [] ≡ []
unfolding skip_newlines
skip_nil = refl

module _ (e : Encoding) (alphabet : IsAlphabet e) where
  skip-encode_digit :
      (n : ℕ)
      → n < 64
      → (s : Text) → skip_newlines (encode_digit e n ∷ s) ≡ encode_digit e n ∷ skip_newlines s
  unfolding skip_newlines IsAlphabet
  skip-encode_digit n h s = rw (alphabet n h).1

  skip-encode : (s : Text) → All IsByte s → skip_newlines (encode e s) ≡ encode e s
  unfolding encode
  skip-encode [] _ = skip_nil
  skip-encode (a ∷ []) (ha, _) = rw (
    skip-encode_digit (a / 4) (omega arith) _,
    skip-encode_digit (a % 4 * 16) (omega arith) _,
    skip_pads,
  )
  skip-encode (a ∷ b ∷ []) (ha, (hb, _)) = rw (
    skip-encode_digit (a / 4) (omega arith) _,
    skip-encode_digit (a % 4 * 16 + b / 16) (omega arith) _,
    skip-encode_digit (b % 16 * 4) (omega arith) _,
    skip_pad,
  )
  skip-encode (a ∷ b ∷ c ∷ s) (ha, (hb, (hc, hs))) = rw (
    skip-encode_digit (a / 4) (omega arith) _,
    skip-encode_digit (a % 4 * 16 + b / 16) (omega arith) _,
    skip-encode_digit (b % 16 * 4 + c / 64) (omega arith) _,
    skip-encode_digit (c % 64) (omega arith) _,
    skip-encode s hs,
  )

  decode_groups-encode : (s : Text) → All IsByte s → decode_groups e (encode e s) ≡ some s
  unfolding IsAlphabet encode decode_groups decode_one decode_two decode_four
  decode_groups-encode [] _ = refl
  decode_groups-encode (a ∷ []) (ha, _) =
      rw ((alphabet (a / 4) (omega arith)).0, (alphabet (a % 4 * 16) (omega arith)).0)
        (rw (group_one a))
  decode_groups-encode (a ∷ b ∷ []) (ha, (hb, _)) =
      rw
        (
          (alphabet (b % 16 * 4) (omega arith)).2,
          (alphabet (a / 4) (omega arith)).0,
          (alphabet (a % 4 * 16 + b / 16) (omega arith)).0,
          (alphabet (b % 16 * 4) (omega arith)).0,
        )
        (rw (group_first a b hb, group_last a b hb))
  decode_groups-encode (a ∷ b ∷ c ∷ s) (ha, (hb, (hc, hs))) =
      rw
        (
          (alphabet (c % 64) (omega arith)).2,
          (alphabet (a / 4) (omega arith)).0,
          (alphabet (a % 4 * 16 + b / 16) (omega arith)).0,
          (alphabet (b % 16 * 4 + c / 64) (omega arith)).0,
          (alphabet (c % 64) (omega arith)).0,
          decode_groups-encode s hs,
        )
        (rw (group_first a b hb, group_second a b c hb hc, group_third b c hc))

  -- Decoding an encoded text of bytes succeeds and gives the text.
  pub decode-encode : (s : Text) → All IsByte s → decode e (encode e s) ≡ some s
  unfolding decode
  decode-encode s h = rw (skip-encode s h) (decode_groups-encode s h)
