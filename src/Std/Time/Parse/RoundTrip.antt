-- ===== src/Std/Time/Parse/RoundTrip.antt =====
-- A time in the layout RFC 3339 is read back, to the second.
use mysql_datalayer.Std.Time.Parse.Digits.{
  two, four, pad-two, pad-four, fixed-two, fixed-four, short-two,
}
use mysql_datalayer.Std.Time.Parse.{
  expect, guard, fraction, zone, numeric_zone, offset_of, west, days_in, ended, parse_rfc3339,
  read_rfc3339,
}
use mysql_datalayer.Prelude.{
  ◌&&◌, nat_eq_refl, zero, ◌≤◌, leb, true, ◌*◌, ◌⊎◌, if◌then◌else◌, suc, some, ◌++◌, Text, [],
  arith, inl, inr, ltb, refl, ℕ, ◌%◌, ◌+◌, ◌/◌, ◌<◌, ◌∷◌, ◌≡◌,
}
use mysql_datalayer.Prelude.Int.{is_zero, neg_part, negsuc, pos, pos_part, ℤ}
use mysql_datalayer.Std.Time.{Time, format_rfc3339, sign, pad}

-- The zone of a format, with its colon.
abbrev pub zone_text : ℤ → Text
zone_text z =
    let minutes = pos_part z + neg_part z in
    let numeric = sign z ∷ (pad 2 (minutes / 60) ++ b':' ∷ pad 2 (minutes % 60)) in
    if is_zero z then b'Z' ∷ [] else numeric

abbrev numeric_text : ℕ → ℕ → Text
numeric_text c n = c ∷ (two (n / 60) ++ b':' ∷ two (n % 60))

numeric_zone-two :
    (c n : ℕ) (z : ℤ)
    → n < 1440
    → offset_of c (n / 60) (n % 60) ≡ some z
    → numeric_zone c (two (n / 60) ++ b':' ∷ two (n % 60)) ≡ some (z, [])
unfolding numeric_zone expect
numeric_zone-two c n z h e =
    rw
      (
        fixed-two (n / 60) (b':' ∷ two (n % 60)) (omega arith),
        fixed-two (n % 60) [] (omega arith),
        e,
      )
      refl

offset_of-east : (n : ℕ) → n < 1440 → offset_of b'+' (n / 60) (n % 60) ≡ some (pos n)
unfolding offset_of
offset_of-east n h =
    let back : n / 60 * 60 + n % 60 ≡ n = omega arith in
    let hours : leb (n / 60) 24 ≡ true = ground arith in
    let minutes : leb (n % 60) 60 ≡ true = ground arith in rw (back, hours, minutes) refl

offset_of-west : (n : ℕ) → suc n < 1440 → offset_of b'-' (suc n / 60) (suc n % 60) ≡ some (negsuc n)
unfolding offset_of west
offset_of-west n h =
    let back : (suc n) / 60 * 60 + (suc n) % 60 ≡ (suc n) = omega arith in
    let hours : leb ((suc n) / 60) 24 ≡ true = ground arith in
    let minutes : leb ((suc n) % 60) 60 ≡ true = ground arith in rw (back, hours, minutes) refl

-- A zone has no fraction in front of it, and is read to the end.
abbrev IsZone : ℤ → Text → Type 0
IsZone z s = (fraction s ≡ (0, s)) × (zone s ≡ some (z, []))

numeric-IsZone :
    (c n : ℕ) (z : ℤ)
    → (c ≡ b'+') ⊎ (c ≡ b'-')
    → n < 1440
    → offset_of c (n / 60) (n % 60) ≡ some z
    → IsZone z (numeric_text c n)
unfolding fraction zone
numeric-IsZone c n z (inl plus) h e =
    (rw plus refl, rw plus (numeric_zone-two b'+' n z h (rw plus at e)))
numeric-IsZone c n z (inr minus) h e =
    (rw minus refl, rw minus (numeric_zone-two b'-' n z h (rw minus at e)))

zone_text-IsZone : (z : ℤ) → pos_part z + neg_part z < 1440 → IsZone z (zone_text z)
unfolding sign fraction zone
zone_text-IsZone (pos zero) h = (refl, refl)
zone_text-IsZone (pos (suc n)) h =
    let sum : suc n + 0 ≡ suc n = omega arith in
    rw (sum, pad-two (suc n / 60) (omega arith), pad-two (suc n % 60) (omega arith))
      (numeric-IsZone b'+' (suc n) (pos (suc n)) (inl refl) (omega arith)
        (offset_of-east (suc n) (omega arith)))
zone_text-IsZone (negsuc n) h =
    let sum : 0 + suc n ≡ suc n = omega arith in
    rw (sum, pad-two (suc n / 60) (omega arith), pad-two (suc n % 60) (omega arith))
      (numeric-IsZone b'-' (suc n) (negsuc n) (inr refl) (omega arith)
        (offset_of-west n (omega arith)))

-- A date and a time that there are, in a zone less than a day from UTC, in a year of four digits.
abbrev pub IsValid : Time → Type 0
IsValid t =
    (t.year < 10000)
    × (1 ≤ t.month)
    × (t.month ≤ 12)
    × (1 ≤ t.day)
    × (leb t.day (days_in t.month t.year) ≡ true)
    × (t.hour < 24)
    × (t.minute < 60)
    × (t.second < 60)
    × (pos_part t.offset + neg_part t.offset < 1440)

-- The format, by its digits.
abbrev pub digits_text : Time → Text
digits_text t =
    four t.year
    ++ b'-'
      ∷ (two t.month
          ++ b'-'
            ∷ (two t.day
                ++ b'T'
                  ∷ (two t.hour
                      ++ b':' ∷ (two t.minute ++ b':' ∷ (two t.second ++ zone_text t.offset)))))

pub day-small : (d m y : ℕ) → leb d (days_in m y) ≡ true → d < 100
unfolding days_in
day-small d m y h = ground arith

pub format-digits : (t : Time) → IsValid t → format_rfc3339 t ≡ digits_text t
unfolding format_rfc3339
format-digits t (year, m1, m12, d1, dlast, hour, minute, second, offset) =
    rw
      (
        pad-four t.year year,
        pad-two t.month (omega arith),
        pad-two t.day (day-small t.day t.month t.year dlast),
        pad-two t.hour (omega arith),
        pad-two t.minute (omega arith),
        pad-two t.second (omega arith),
      )
      refl

expect-same : (c : ℕ) (s : Text) → expect c (c ∷ s) ≡ some s
unfolding expect
expect-same c s = rw (nat_eq_refl c) refl

read-digits :
    (t : Time) → IsValid t → read_rfc3339 (digits_text t) ≡ some (record t { nanosecond = 0 })
unfolding read_rfc3339 guard ended
read-digits t (year, m1, m12, d1, dlast, hour, minute, second, offset) =
    let (no_fraction, read_zone) = zone_text-IsZone t.offset offset in
    let in_year : (leb 1 t.month && leb t.month 12) ≡ true = ground arith in
    let in_day : ltb t.hour 24 ≡ true = ground arith in
    let in_hour : ltb t.minute 60 ≡ true = ground arith in
    let in_minute : ltb t.second 60 ≡ true = ground arith in
    let from_first : leb 1 t.day ≡ true = ground arith in
    rw
      (
        fixed-four t.year _ year,
        expect-same b'-' _,
        fixed-two t.month _ (omega arith),
        in_year,
        expect-same b'-' _,
        fixed-two t.day _ (day-small t.day t.month t.year dlast),
        expect-same b'T' _,
        short-two t.hour _ (omega arith),
        in_day,
        expect-same b':' _,
        fixed-two t.minute _ (omega arith),
        in_hour,
        expect-same b':' _,
        fixed-two t.second _ (omega arith),
        in_minute,
        no_fraction,
        read_zone,
        from_first,
        dlast,
      )
      refl

-- A time that there is, in a zone less than a day from UTC and in a year of four digits, is read
-- from its text in the layout of RFC 3339, without its fraction of a second.
pub parse-format :
    (t : Time) → IsValid t → parse_rfc3339 (format_rfc3339 t) ≡ some (record t { nanosecond = 0 })
unfolding parse_rfc3339
parse-format t valid = rw (format-digits t valid) (read-digits t valid)
