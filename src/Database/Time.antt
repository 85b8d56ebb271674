-- ===== src/Database/Time.antt =====
-- Times: a UTC time as the code takes it from its clock, and its text in a column, the layout
-- time.RFC3339Nano, which drops the zeros at the end of the fraction.
use tejun.Prelude.{
  ℕ, zero, suc, ◌/◌, ◌%◌, String, nat_eq, ltb, Bool, ◌||◌, ◌&&◌, if◌then◌else◌, ◌+s◌, decimal, ◌==◌,
  ◌≡◌, refl, text_lt, true,
}

-- `second` is the text of the time's second, as 2006-01-02T15:04:05, `nanos` the nanoseconds after
-- it, and `micros` the time's UnixMicro.
pub record Time : Type 0 where
  pub second : String
  pub nanos : ℕ
  pub micros : ℕ

-- t.Before(u): the seconds' texts have one length, so their order is that of the seconds.
abbrev pub is_before : Time → Time → Bool
is_before t u = text_lt t.second u.second || (t.second == u.second && ltb t.nanos u.nanos)

-- The digits of `n` in `width` places, without the zeros at their end.
fraction_digits : ℕ → ℕ → String → String
fraction_digits zero n acc = acc
fraction_digits (suc width) n acc =
    fraction_digits width (n / 10) (
      if nat_eq (n % 10) 0 then (if acc == "" then "" else "0" +s acc) else decimal (n % 10) +s acc)

-- t.Format(time.RFC3339Nano)
unfoldable pub format : Time → String
unfolding fraction_digits decimal
format t =
    if nat_eq t.nanos 0
    then t.second +s "Z"
    else t.second +s "." +s fraction_digits 9 t.nanos "" +s "Z"

format_half :
    format (record { second = "2026-09-26T10:00:00"; nanos = 500000000; micros = 0 })
    ≡ "2026-09-26T10:00:00.5Z"
unfolding format
format_half = refl

-- The texts of two times of one second need not be in the order of the times.
format_out_of_order :
    text_lt
      (format (record { second = "2026-09-26T10:00:00"; nanos = 510000000; micros = 0 }))
      (format (record { second = "2026-09-26T10:00:00"; nanos = 500000000; micros = 0 }))
    ≡ true
unfolding format
format_out_of_order = refl
