-- ===== src/Timestamp/Laws.antt =====
-- Go's package `time`: dates and clocks, printed and parsed.
use knative_benchmark.Prelude.{
  ℕ, ◌/◌, ◌%◌, ◌≤◌, ◌<◌, ◌≡◌, refl, true, [], ◌∷◌, ◌++◌, some, ltb, Text, arith, Lacks,
  append_assoc,
}
use knative_benchmark.Timestamp.{
  parse_date, parse_clock, Timestamp, days_in, is_day, two, pad_year, format_date, format_clock,
  two_digits, one_or_two_digits, four_digits, drop_spaces, skip_fraction, parse_timestamp,
}

-- A date of the years 0 to 9999 and a time of the day.
pub record IsValid (t : Timestamp) : Type 0 where
  pub year : t.year < 10000
  pub month : (1 ≤ t.month) × (t.month ≤ 12)
  pub day : is_day t.year t.month t.day ≡ true
  pub hour : t.hour < 24
  pub minute : t.minute < 60
  pub second : t.second < 60

two_digits-two : (n : ℕ) (s : Text) → n < 100 → two_digits (two n ++ s) ≡ some (n, s)
unfolding two_digits
two_digits-two n s h = ground arith

one_or_two_digits-two : (n : ℕ) (s : Text) → n < 100 → one_or_two_digits (two n ++ s) ≡ some (n, s)
unfolding one_or_two_digits
one_or_two_digits-two n s h = ground arith

four_digits-pad_year : (n : ℕ) (s : Text) → n < 10000 → four_digits (pad_year n ++ s) ≡ some (n, s)
unfolding four_digits pad_year
four_digits-pad_year n s h =
    let small : ltb n 10000 ≡ true = ground arith in
    rw small (
      rw (two_digits-two (n / 100) _ (omega arith))
        (rw (two_digits-two (n % 100) s (omega arith)) (ground arith)))

days_in-lt : (y m : ℕ) → days_in y m < 32
unfolding days_in
days_in-lt y m = ground arith

day-lt : (y m d : ℕ) → is_day y m d ≡ true → d < 100
day-lt y m d h = ground (arith, days_in-lt y m)

parse_date-format :
    (t : Timestamp) (s : Text)
    → IsValid t
    → parse_date (format_date t ++ s) ≡ some (t.year, t.month, t.day, s)
unfolding parse_date format_date
parse_date-format t s v =
    rw (append_assoc (pad_year t.year) (b'-' ∷ (two t.month ++ b'-' ∷ two t.day)) s) (
      rw (four_digits-pad_year t.year _ v.year) (
        rw (two_digits-two t.month _ (omega arith))
          (rw (two_digits-two t.day s (day-lt t.year t.month t.day v.day)) (ground arith))))

drop_spaces-clock : (t : Timestamp) → IsValid t → drop_spaces (format_clock t) ≡ format_clock t
unfolding format_clock drop_spaces
drop_spaces-clock t v = ground arith

parse_clock-format :
    (t : Timestamp)
    → IsValid t
    → parse_clock (format_clock t) ≡ some (t.hour, t.minute, t.second, [])
unfolding parse_clock format_clock
parse_clock-format t v = rw (one_or_two_digits-two t.hour _ (omega arith)) (
    rw (two_digits-two t.minute _ (omega arith))
      (rw (two_digits-two t.second [] (omega arith)) (ground arith)))

-- A valid time is read back from its date, a space and its clock, up to the second.
pub parse_timestamp-format :
    (t : Timestamp)
    → IsValid t
    → parse_timestamp (format_date t ++ b' ' ∷ format_clock t) ≡ some (record t { nanos = 0 })
unfolding parse_timestamp skip_fraction
parse_timestamp-format t v =
    rw (parse_date-format t (b' ' ∷ format_clock t) v)
      (rw (drop_spaces-clock t v) (rw (parse_clock-format t v) (rw v.day refl)))

-- What is printed holds no underscore.
pub format_date-Lacks : (t : Timestamp) → IsValid t → Lacks b'_' (format_date t)
unfolding format_date pad_year
format_date-Lacks t v = ground (arith, day-lt t.year t.month t.day)

pub format_clock-Lacks : (t : Timestamp) → IsValid t → Lacks b'_' (format_clock t)
unfolding format_clock
format_clock-Lacks t v = ground arith

-- Nor a slash.
pub format_date-no_slash : (t : Timestamp) → IsValid t → Lacks b'/' (format_date t)
unfolding format_date pad_year
format_date-no_slash t v = ground (arith, day-lt t.year t.month t.day)

pub format_clock-no_slash : (t : Timestamp) → IsValid t → Lacks b'/' (format_clock t)
unfolding format_clock
format_clock-no_slash t v = ground arith
