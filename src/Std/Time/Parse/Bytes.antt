-- ===== src/Std/Time/Parse/Bytes.antt =====
-- A time in the layout RFC 3339 is a text of bytes, which base64 gives back.
use mysql_datalayer.Prelude.{
  All, arith, false, is_empty, refl, some, suc, zero, ◌%◌, ◌+◌, ◌/◌, ◌<◌, ◌≡◌,
}
use mysql_datalayer.Prelude.Int.{neg_part, negsuc, pos, pos_part, ℤ}
use mysql_datalayer.Std.Base64.{Encoding, decode, encode}
use mysql_datalayer.Std.Base64.RoundTrip.{IsAlphabet, IsByte, decode-encode}
use mysql_datalayer.Std.Time.{Time, format_rfc3339, sign}
use mysql_datalayer.Std.Time.Parse.Digits.{pad-two}
use mysql_datalayer.Std.Time.Parse.RoundTrip.{
  zone_text, digits_text, format-digits, day-small, IsValid,
}

zone_text-All : (z : ℤ) → pos_part z + neg_part z < 1440 → All IsByte (zone_text z)
unfolding sign
zone_text-All (pos zero) h = (omega arith, tt)
zone_text-All (pos (suc n)) h =
    rw (pad-two ((suc n + 0) / 60) (omega arith), pad-two ((suc n + 0) % 60) (omega arith))
      (omega arith, (omega arith, (omega arith, (omega arith, (omega arith, (omega arith, tt))))))
zone_text-All (negsuc n) h =
    rw (pad-two ((0 + suc n) / 60) (omega arith), pad-two ((0 + suc n) % 60) (omega arith))
      (omega arith, (omega arith, (omega arith, (omega arith, (omega arith, (omega arith, tt))))))

digits-All : (t : Time) → IsValid t → All IsByte (digits_text t)
digits-All t (year, m1, m12, d1, dlast, hour, minute, second, offset) =
    let day = day-small t.day t.month t.year dlast in
    (
      omega arith,
      (
        omega arith,
        (
          omega arith,
          (
            omega arith,
            (
              omega arith,
              (
                omega arith,
                (
                  omega arith,
                  (
                    omega arith,
                    (
                      omega arith,
                      (
                        omega arith,
                        (
                          omega arith,
                          (
                            omega arith,
                            (
                              omega arith,
                              (
                                omega arith,
                                (
                                  omega arith,
                                  (
                                    omega arith,
                                    (
                                      omega arith,
                                      (omega arith, (omega arith, zone_text-All t.offset offset)),
                                    ),
                                  ),
                                ),
                              ),
                            ),
                          ),
                        ),
                      ),
                    ),
                  ),
                ),
              ),
            ),
          ),
        ),
      ),
    )

-- The same from base64: the text of such a time is not empty when it is encoded.
pub decode-format :
    (e : Encoding)
    → IsAlphabet e
    → (t : Time) → IsValid t
    → (decode e (encode e (format_rfc3339 t)) ≡ some (format_rfc3339 t))
      × (is_empty (encode e (format_rfc3339 t)) ≡ false)
unfolding encode
decode-format e alphabet t valid =
    rw (format-digits t valid) (decode-encode e alphabet (digits_text t) (digits-All t valid), refl)
