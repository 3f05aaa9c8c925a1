-- ===== src/Std/Time/Parse/Digits.antt =====
-- Numbers of two digits and of four, as a time is formatted with them and read back.
use mysql_datalayer.Prelude.{
  Bool-cases, Text, [], arith, inl, inr, ltb, refl, some, ℕ, ◌%◌, ◌++◌, ◌+◌, ◌/◌, ◌<◌, ◌∷◌, ◌≡◌,
}
use mysql_datalayer.Prelude.Int.{decimal-four, decimal-one, decimal-three, decimal-two}
use mysql_datalayer.Std.Time.{zeros, pad}
use mysql_datalayer.Std.Time.Parse.{fixed, short, short_digits, is_digit}

-- The decimal digits of a number of two digits, and of four.
abbrev pub two : ℕ → Text
two n = (b'0' + n / 10) ∷ (b'0' + n % 10) ∷ []

abbrev pub four : ℕ → Text
four n =
    (b'0' + n / 10 / 10 / 10)
    ∷ (b'0' + n / 10 / 10 % 10)
    ∷ (b'0' + n / 10 % 10)
    ∷ (b'0' + n % 10)
    ∷ []

pub pad-two : (n : ℕ) → n < 100 → pad 2 n ≡ two n
unfolding pad zeros
pad-two n h = elim (Bool-cases (ltb n 10)) [
  | inl one ↦
      (let d = decimal-one n (ground arith) in
        let q : n / 10 ≡ 0 = ground arith in let r : n % 10 ≡ n = ground arith in rw (d, q, r) refl)
  | inr more ↦ (let d = decimal-two n (ground arith) h in rw d refl)
]

pub pad-four : (n : ℕ) → n < 10000 → pad 4 n ≡ four n
unfolding pad zeros
pad-four n h = elim (Bool-cases (ltb n 10)) [
  | inl one ↦
      (let d = decimal-one n (ground arith) in
        let q : n / 10 ≡ 0 = ground arith in let r : n % 10 ≡ n = ground arith in rw (d, q, r) refl)
  | inr more ↦ elim (Bool-cases (ltb n 100)) [
    | inl two ↦
        (let d = decimal-two n (ground arith) (ground arith) in
          let q : n / 10 / 10 ≡ 0 = ground arith in
          let r : n / 10 % 10 ≡ n / 10 = ground arith in rw (d, q, r) refl)
    | inr more ↦ elim (Bool-cases (ltb n 1000)) [
      | inl three ↦
          (let d = decimal-three n (ground arith) (ground arith) in
            let q : n / 10 / 10 / 10 ≡ 0 = ground arith in
            let r : n / 10 / 10 % 10 ≡ n / 10 / 10 = ground arith in rw (d, q, r) refl)
      | inr more ↦ (let d = decimal-four n (ground arith) h in rw d refl)
    ]
  ]
]

pub fixed-two : (n : ℕ) (s : Text) → n < 100 → fixed 2 0 (two n ++ s) ≡ some (n, s)
unfolding fixed is_digit
fixed-two n s h = ground arith

pub fixed-four : (n : ℕ) (s : Text) → n < 10000 → fixed 4 0 (four n ++ s) ≡ some (n, s)
unfolding fixed is_digit
fixed-four n s h = ground arith

pub short-two : (n : ℕ) (s : Text) → n < 100 → short (two n ++ s) ≡ some (n, s)
unfolding short fixed short_digits is_digit
short-two n s h = ground arith
