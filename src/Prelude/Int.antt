-- ===== src/Prelude/Int.antt =====
-- Signed integers over the native numbers, and their decimal text (strconv.Itoa and %d).
use Prim.Native.Nat.{ℕ, zero, suc, ◌+◌, ◌-◌, ◌^◌, ◌/◌, ◌%◌, ◌<◌, ◌≤◌}
use mathlib.Core.Path.{◌≡◌, refl}
use mathlib.Core.Bool.{Bool, true, false}
use mathlib.Core.List.{[], ◌∷◌, ◌++◌}
use mysql_datalayer.Prelude.Tests.{if◌then◌else◌, leb, ltb}
use mysql_datalayer.Prelude.Lists.{All}
use native.Mathlib.Omega.{arith}
use mathlib.Core.Logic.{inl, inr}
use mysql_datalayer.Prelude.Tests.{Bool-cases}
use mysql_datalayer.Prelude.Strings.{Text, text}

-- `negsuc n` is -(n + 1).
pub data ℤ : Type 0 where
  pos : ℕ → ℤ
  negsuc : ℕ → ℤ

abbrev pub pos_part : ℤ → ℕ
pos_part (pos n) = n
pos_part (negsuc n) = 0

abbrev pub neg_part : ℤ → ℕ
neg_part (pos n) = 0
neg_part (negsuc n) = suc n

infix 50 ◌≤ℤ◌ ◌<ℤ◌
abbrev pub ◌≤ℤ◌ : ℤ → ℤ → Type 0
a ≤ℤ b = pos_part a + neg_part b ≤ pos_part b + neg_part a

abbrev pub ◌<ℤ◌ : ℤ → ℤ → Type 0
a <ℤ b = pos_part a + neg_part b < pos_part b + neg_part a

abbrev pub leb_ℤ : ℤ → ℤ → Bool
leb_ℤ a b = leb (pos_part a + neg_part b) (pos_part b + neg_part a)

abbrev pub is_zero : ℤ → Bool
is_zero (pos zero) = true
is_zero _ = false

abbrev pub difference : ℕ → ℕ → ℤ
difference a b = if leb b a then pos (a - b) else negsuc (b - a - 1)

infixl 60 ◌+ℤ◌
abbrev pub ◌+ℤ◌ : ℤ → ℤ → ℤ
a +ℤ b = difference (pos_part a + pos_part b) (neg_part a + neg_part b)

-- The 64 bits of an integer, and the `int64` that has them.
abbrev pub to_bits : ℤ → ℕ
to_bits (pos n) = n % 2 ^ 64
to_bits (negsuc n) = 2 ^ 64 - 1 - n % 2 ^ 64

abbrev pub of_bits : ℕ → ℤ
of_bits n = if ltb n (2 ^ 63) then pos n else negsuc (2 ^ 64 - 1 - n)

-- The digits of `n`, at most `fuel` of them; `suc n` is enough, since a round divides by ten.
digits : ℕ → ℕ → Text → Text
digits zero n out = out
digits (suc fuel) n out =
    let rest = digits fuel (n / 10) ((b'0' + n % 10) ∷ out) in
    if ltb n 10 then (b'0' + n) ∷ out else rest

unfoldable pub decimal : ℕ → Text
unfolding digits
decimal n = digits (suc n) n []

unfoldable pub itoa : ℤ → Text
unfolding decimal
itoa (pos n) = decimal n
itoa (negsuc n) = b'-' ∷ decimal (suc n)

module _ {ℓ} (P : ℕ → Type ℓ) (digit : (d : ℕ) → d < 10 → P (b'0' + d)) where
  digits-All : (fuel n : ℕ) (out : Text) → All P out → All P (digits fuel n out)
  unfolding digits
  digits-All zero n out h = h
  digits-All (suc fuel) n out h =
      let later =
        digits-All fuel (n / 10) ((b'0' + n % 10) ∷ out) (digit (n % 10) (omega arith), h) in
      elim (Bool-cases (ltb n 10)) [
        | inl small ↦ rw small (digit n (ground arith), h)
        | inr large ↦ rw large later
      ]

  -- What holds of the digits holds of every byte of a number.
  pub decimal-All : (n : ℕ) → All P (decimal n)
  unfolding decimal
  decimal-All n = digits-All (suc n) n [] tt

digits-last : (fuel n : ℕ) (out : Text) → n < 10 → digits (suc fuel) n out ≡ (b'0' + n) ∷ out
unfolding digits
digits-last fuel n out h = ground arith

digits-more :
    (fuel n : ℕ) (out : Text)
    → 10 ≤ n
    → digits (suc fuel) n out ≡ digits fuel (n / 10) ((b'0' + n % 10) ∷ out)
unfolding digits
digits-more fuel n out h = ground arith

-- The numbers of one digit, two, three and four.
pub decimal-one : (n : ℕ) → n < 10 → decimal n ≡ (b'0' + n) ∷ []
unfolding decimal
decimal-one n h = digits-last n n [] h

pub decimal-two : (n : ℕ) → 10 ≤ n → n < 100 → decimal n ≡ (b'0' + n / 10) ∷ (b'0' + n % 10) ∷ []
unfolding decimal
decimal-two zero l h = absurd (omega arith)
decimal-two (suc m) l h =
    rw (digits-more (suc m) (suc m) [] l) (digits-last m (suc m / 10) _ (omega arith))

pub decimal-three :
    (n : ℕ)
    → 100 ≤ n
    → n < 1000
    → decimal n ≡ (b'0' + n / 10 / 10) ∷ (b'0' + n / 10 % 10) ∷ (b'0' + n % 10) ∷ []
unfolding decimal
decimal-three zero l h = absurd (omega arith)
decimal-three (suc zero) l h = absurd (omega arith)
decimal-three (suc (suc m)) l h =
    rw
      (
        digits-more (suc (suc m)) (suc (suc m)) [] (omega arith),
        digits-more (suc m) (suc (suc m) / 10) ((b'0' + suc (suc m) % 10) ∷ []) (omega arith),
      )
      (digits-last m (suc (suc m) / 10 / 10) _ (omega arith))

pub decimal-four :
    (n : ℕ)
    → 1000 ≤ n
    → n < 10000
    → decimal n
      ≡ (b'0' + n / 10 / 10 / 10)
        ∷ (b'0' + n / 10 / 10 % 10)
        ∷ (b'0' + n / 10 % 10)
        ∷ (b'0' + n % 10)
        ∷ []
unfolding decimal
decimal-four zero l h = absurd (omega arith)
decimal-four (suc zero) l h = absurd (omega arith)
decimal-four (suc (suc zero)) l h = absurd (omega arith)
decimal-four (suc (suc (suc m))) l h =
    rw
      (
        digits-more (suc (suc (suc m))) (suc (suc (suc m))) [] (omega arith),
        digits-more (suc (suc m)) (suc (suc (suc m)) / 10) ((b'0' + suc (suc (suc m)) % 10) ∷ [])
            (omega arith),
        digits-more (suc m) (suc (suc (suc m)) / 10 / 10)
            ((b'0' + suc (suc (suc m)) / 10 % 10) ∷ (b'0' + suc (suc (suc m)) % 10) ∷ [])
            (omega arith),
      )
      (digits-last m (suc (suc (suc m)) / 10 / 10 / 10) _ (omega arith))

itoa_test : itoa (pos 1000) ++ itoa (negsuc 41) ≡ text "1000-42"
unfolding itoa text
itoa_test = refl
