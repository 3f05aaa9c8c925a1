-- ===== src/Std/Time.antt =====
-- package time: the wall clock of a `time.Time` with its zone offset, the layouts that the code
-- formats with, and `time.Parse(time.RFC3339, …)`.
pub mod Parse
pub mod Plain
use mysql_datalayer.Prelude.{
  ℕ, zero, suc, ◌+◌, ◌-◌, ◌*◌, ◌/◌, ◌%◌, Bool, true, false, List, [], ◌∷◌, ◌++◌, Text, text, length,
  if◌then◌else◌, ◌≡◌, refl,
}
use mysql_datalayer.Prelude.Int.{is_zero, ℤ, pos, negsuc, decimal, neg_part, pos_part}

pub record Time : Type 0 where
  pub year : ℕ
  pub month : ℕ
  pub day : ℕ
  pub hour : ℕ
  pub minute : ℕ
  pub second : ℕ
  pub nanosecond : ℕ
  -- minutes east of UTC
  pub offset : ℤ

-- The zero `time.Time`, January 1 of year 1, UTC.
abbrev pub zero_time : Time
zero_time = record {
  year = 1;
  month = 1;
  day = 1;
  hour = 0;
  minute = 0;
  second = 0;
  nanosecond = 0;
  offset = pos 0;
}

zeros : ℕ → Text
zeros zero = []
zeros (suc n) = b'0' ∷ zeros n

-- A number in at least `width` digits.
unfoldable pub pad : ℕ → ℕ → Text
unfolding zeros decimal
pad width n = let digits = decimal n in zeros (width - length digits) ++ digits

unfoldable pub sign : ℤ → ℕ
sign (pos _) = b'+'
sign (negsuc _) = b'-'

-- "2006-01-02 15:04:05"
unfoldable pub format_seconds : Time → Text
format_seconds t =
    pad 4 t.year
    ++ b'-'
      ∷ (pad 2 t.month
          ++ b'-'
            ∷ (pad 2 t.day
                ++ b' ' ∷ (pad 2 t.hour ++ b':' ∷ (pad 2 t.minute ++ b':' ∷ pad 2 t.second))))

-- "2006-01-02 15:04:05.000000"
unfoldable pub format_micros : Time → Text
format_micros t = format_seconds t ++ b'.' ∷ pad 6 (t.nanosecond / 1000)

-- "2006-01-02 15:04:05-0700"
unfoldable pub format_offset : Time → Text
format_offset t =
    let minutes = pos_part t.offset + neg_part t.offset in
    format_seconds t ++ sign t.offset ∷ (pad 2 (minutes / 60) ++ pad 2 (minutes % 60))

-- time.RFC3339: "2006-01-02T15:04:05Z07:00".
unfoldable pub format_rfc3339 : Time → Text
format_rfc3339 t =
    let minutes = pos_part t.offset + neg_part t.offset in
    let numeric = sign t.offset ∷ (pad 2 (minutes / 60) ++ b':' ∷ pad 2 (minutes % 60)) in
    pad 4 t.year
    ++ b'-'
      ∷ (pad 2 t.month
          ++ b'-'
            ∷ (pad 2 t.day
                ++ b'T'
                  ∷ (pad 2 t.hour
                      ++ b':'
                        ∷ (pad 2 t.minute
                            ++ b':'
                              ∷ (pad 2 t.second
                                  ++ (if is_zero t.offset then b'Z' ∷ [] else numeric))))))

zero_micros : format_micros zero_time ≡ text "0001-01-01 00:00:00.000000"
unfolding format_micros format_seconds pad text
zero_micros = refl

offset_test :
    format_offset (record zero_time { year = 2024; month = 12; offset = negsuc 89 })
    ≡ text "2024-12-01 00:00:00-0130"
unfolding format_offset format_seconds pad sign text
offset_test = refl
