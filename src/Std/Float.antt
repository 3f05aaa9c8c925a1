-- ===== src/Std/Float.antt =====
-- float64: a finite value is an integer divided by a power of two. The infinities and NaN do not
-- occur in JSON text or in a MySQL column.
use mysql_datalayer.Prelude.{
  ℕ, zero, suc, ◌-◌, ◌*◌, ◌/◌, ◌^◌, Bool, false, nat_eq, ltb, if◌then◌else◌, ◌≡◌, refl,
}
use mysql_datalayer.Prelude.Int.{ℤ, pos, negsuc}

pub record Float : Type 0 where
  pub mantissa : ℤ
  -- the value is mantissa / 2 ^ scale
  pub scale : ℕ

-- Truncation of -m towards zero.
negate : ℕ → ℤ
negate zero = pos 0
negate (suc n) = negsuc n

truncate : ℤ → ℕ → ℤ
truncate (pos m) k = pos (m / 2 ^ k)
truncate (negsuc m) k = negate (suc m / 2 ^ k)

-- Out of range the conversion gives the least int64, as on amd64.
clip : ℤ → ℤ
clip (pos m) = if ltb m (2 ^ 63) then pos m else negsuc (2 ^ 63 - 1)
clip (negsuc m) = if ltb m (2 ^ 63) then negsuc m else negsuc (2 ^ 63 - 1)

-- `int64(v)`, and `int(v)` on a 64-bit machine.
unfoldable pub to_int : Float → ℤ
unfolding truncate negate clip
to_int v = clip (truncate v.mantissa v.scale)

-- `v == float64(i)`, for an i that is exact in 53 bits or is `to_int v`.
unfoldable pub equals_int : Float → ℤ → Bool
equals_int v (pos n) = elim v.mantissa [ pos m ↦ nat_eq m (n * 2 ^ v.scale) | negsuc m ↦ false ]
equals_int v (negsuc n) = elim v.mantissa [
  | pos m ↦ false
  | negsuc m ↦ nat_eq (suc m) (suc n * 2 ^ v.scale)
]

half_test : to_int (record { mantissa = negsuc 4; scale = 1 }) ≡ negsuc 1
unfolding to_int
half_test = refl
