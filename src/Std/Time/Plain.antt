-- ===== src/Std/Time/Plain.antt =====
-- A formatted time consists of bytes below ';' that are no quotes.
use mysql_datalayer.Prelude.{
  ℕ, zero, suc, ◌-◌, ◌<◌, ◌≢◌, ◌∷◌, ◌++◌, arith, length, All, Text, All-append,
}
use mysql_datalayer.Prelude.Int.{ℤ, pos, negsuc, decimal, decimal-All}
use mysql_datalayer.Std.Time.{Time, zeros, pad, sign, format_seconds, format_micros, format_offset}

abbrev pub IsDateByte : ℕ → Type 0
IsDateByte c = (c < 59) × (c ≢ b'\'')

zeros-All : (n : ℕ) → All IsDateByte (zeros n)
unfolding zeros
zeros-All zero = tt
zeros-All (suc n) = (omega arith, zeros-All n)

pad-All : (width n : ℕ) → All IsDateByte (pad width n)
unfolding pad
pad-All width n =
    All-append IsDateByte (zeros (width - length (decimal n))) (decimal n) (zeros-All _)
      (decimal-All IsDateByte (λ d h. omega arith) n)

sign-IsDateByte : (z : ℤ) → IsDateByte (sign z)
unfolding sign
sign-IsDateByte (pos n) = omega arith
sign-IsDateByte (negsuc n) = omega arith

-- A separator and what follows it.
then-All :
    (c : ℕ) (s t : Text)
    → All IsDateByte s
    → IsDateByte c
    → All IsDateByte t
    → All IsDateByte (s ++ c ∷ t)
then-All c s t h p k = All-append IsDateByte s (c ∷ t) h (p, k)

pub format_seconds-All : (t : Time) → All IsDateByte (format_seconds t)
unfolding format_seconds
format_seconds-All t = then-All b'-' (pad 4 t.year) _ (pad-All 4 t.year) (omega arith) (
    then-All b'-' (pad 2 t.month) _ (pad-All 2 t.month) (omega arith) (
      then-All b' ' (pad 2 t.day) _ (pad-All 2 t.day) (omega arith) (
        then-All b':' (pad 2 t.hour) _ (pad-All 2 t.hour) (omega arith) (
          then-All b':' (pad 2 t.minute) _ (pad-All 2 t.minute) (omega arith)
            (pad-All 2 t.second)))))

pub format_micros-All : (t : Time) → All IsDateByte (format_micros t)
unfolding format_micros
format_micros-All t =
    then-All b'.' (format_seconds t) _ (format_seconds-All t) (omega arith) (pad-All 6 _)

pub format_offset-All : (t : Time) → All IsDateByte (format_offset t)
unfolding format_offset
format_offset-All t =
    then-All (sign t.offset) (format_seconds t) _ (format_seconds-All t) (sign-IsDateByte t.offset)
      (All-append IsDateByte (pad 2 _) (pad 2 _) (pad-All 2 _) (pad-All 2 _))
