-- ===== src/Std/Time/Parse.antt =====
-- `time.Parse(time.RFC3339, s)`: "2006-01-02T15:04:05Z07:00". As in Go the hour may have one digit,
-- and a fraction of a second may follow the seconds after a period or a comma.
mod Digits
pub mod RoundTrip
pub mod Bytes
use mysql_datalayer.Prelude.{
  ℕ, zero, suc, ◌+◌, ◌-◌, ◌*◌, ◌%◌, ◌^◌, Bool, true, false, not, ◌&&◌, ◌||◌, Option, none, some, [],
  ◌∷◌, Text, text, ltb, leb, nat_eq, if◌then◌else◌, ◌≡◌, refl,
}
use mysql_datalayer.Prelude.Int.{ℤ, pos, negsuc}
use mysql_datalayer.Std.Time.{sign, pad, format_seconds, Time, format_offset}

infixl 5 ◌>>=◌ ◌>>◌
abbrev ◌>>=◌ {ℓ κ} : {A : Type ℓ} {B : Type κ} → Option A → (A → Option B) → Option B
none >>= k = none
some a >>= k = k a

abbrev ◌>>◌ {ℓ} : {B : Type ℓ} → Option (Unit {0}) → Option B → Option B
m >> k = m >>= λ _. k

guard : Bool → Option (Unit {0})
guard true = some tt
guard false = none

is_digit : ℕ → Bool
is_digit c = leb b'0' c && leb c b'9'

-- Exactly `n` digits, added to the value read so far.
pub fixed : ℕ → ℕ → Text → Option (ℕ × Text)
fixed zero acc s = some (acc, s)
fixed (suc n) acc [] = none
fixed (suc n) acc (c ∷ s) =
    let rest = fixed n (acc * 10 + (c - b'0')) s in if is_digit c then rest else none

-- One digit or two.
short_digits : ℕ → Text → Option (ℕ × Text)
short_digits a [] = some (a, [])
short_digits a (c ∷ s) = if is_digit c then some (a * 10 + (c - b'0'), s) else some (a, c ∷ s)

pub short : Text → Option (ℕ × Text)
unfolding short_digits
short s = do (a, rest) ← fixed 1 0 s; short_digits a rest

expect : ℕ → Text → Option Text
expect c [] = none
expect c (d ∷ s) = if nat_eq c d then some s else none

-- The digits of a fraction, of which nine count.
nanos : ℕ → ℕ → Text → ℕ × Text
nanos room acc [] = (acc * 10 ^ room, [])
nanos zero acc (c ∷ s) = let rest = nanos zero acc s in if is_digit c then rest else (acc, c ∷ s)
nanos (suc room) acc (c ∷ s) =
    let rest = nanos room (acc * 10 + (c - b'0')) s in
    if is_digit c then rest else (acc * 10 ^ suc room, c ∷ s)

fraction : Text → ℕ × Text
fraction (c ∷ d ∷ s) =
    if (nat_eq c b'.' || nat_eq c b',') && is_digit d then nanos 9 0 (d ∷ s) else (0, c ∷ d ∷ s)
fraction s = (0, s)

west : ℕ → ℤ
west zero = pos 0
west (suc n) = negsuc n

offset_of : ℕ → ℕ → ℕ → Option ℤ
offset_of c h m =
    if not (leb h 24 && leb m 60)
    then none
    else if nat_eq c b'+'
    then some (pos (h * 60 + m))
    else if nat_eq c b'-'
    then some (west (h * 60 + m))
    else none

numeric_zone : ℕ → Text → Option (ℤ × Text)
numeric_zone c s = do
  (h, s) ← fixed 2 0 s
  s ← expect b':' s
  (m, s) ← fixed 2 0 s
  z ← offset_of c h m
  some (z, s)

zone : Text → Option (ℤ × Text)
unfolding numeric_zone
zone [] = none
zone (c ∷ s) = if nat_eq c b'Z' then some (pos 0, s) else numeric_zone c s

is_leap : ℕ → Bool
is_leap y = nat_eq (y % 4) 0 && (not (nat_eq (y % 100) 0) || nat_eq (y % 400) 0)

unfoldable pub days_in : ℕ → ℕ → ℕ
unfolding is_leap
days_in m y =
    if nat_eq m 2
    then if is_leap y then 29 else 28
    else if nat_eq m 4 || nat_eq m 6 || nat_eq m 9 || nat_eq m 11
    then 30
    else 31

ended : Text → Bool
ended [] = true
ended (_ ∷ _) = false

read_rfc3339 : Text → Option Time
read_rfc3339 s = do
  (year, s) ← fixed 4 0 s
  s ← expect b'-' s
  (month, s) ← fixed 2 0 s
  guard (leb 1 month && leb month 12)
  s ← expect b'-' s
  (day, s) ← fixed 2 0 s
  s ← expect b'T' s
  (hour, s) ← short s
  guard (ltb hour 24)
  s ← expect b':' s
  (minute, s) ← fixed 2 0 s
  guard (ltb minute 60)
  s ← expect b':' s
  (second, s) ← fixed 2 0 s
  guard (ltb second 60)
  let (ns, after) = fraction s
  (z, rest) ← zone after
  guard (ended rest && (leb 1 day && leb day (days_in month year)))
  some (record {
    year = year;
    month = month;
    day = day;
    hour = hour;
    minute = minute;
    second = second;
    nanosecond = ns;
    offset = z;
  })

unfoldable pub parse_rfc3339 : Text → Option Time
unfolding read_rfc3339 fixed short expect fraction nanos zone offset_of west days_in is_leap
    is_digit guard ended
parse_rfc3339 s = read_rfc3339 s

option_map_offset : Option Time → Option Text
option_map_offset none = none
option_map_offset (some t) = some (format_offset t)

parse_test :
    option_map_offset (parse_rfc3339 (text "2024-02-29T7:04:05.123+02:00"))
    ≡ some (text "2024-02-29 07:04:05+0200")
unfolding option_map_offset parse_rfc3339 format_offset format_seconds pad sign text
parse_test = refl

parse_error : parse_rfc3339 (text "2023-02-29T07:04:05Z") ≡ none
unfolding parse_rfc3339 text
parse_error = refl
