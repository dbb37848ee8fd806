-- ===== src/Timestamp.antt =====
-- What the program uses of Go's package `time`: a time in UTC, its print in the names of log files,
-- and its parse from them.
pub mod Laws
use knative_benchmark.Prelude.{
  ℕ, zero, suc, ◌+◌, ◌-◌, ◌*◌, ◌/◌, ◌%◌, ◌≤◌, ◌<◌, Bool, true, false, not, ◌&&◌, ◌||◌, List, [],
  ◌∷◌, ◌++◌, Option, none, some, if◌then◌else◌, ltb, leb, ◌==◌, Text, length, take, ◌≡◌, refl,
  codes,
}
use knative_benchmark.Decimal.{is_digit, decimal}

pub record Timestamp : Type 0 where
  pub year : ℕ
  pub month : ℕ
  pub day : ℕ
  pub hour : ℕ
  pub minute : ℕ
  pub second : ℕ
  pub nanos : ℕ

abbrev pub is_leap : ℕ → Bool
is_leap y = y % 4 == 0 && (not (y % 100 == 0) || y % 400 == 0)

unfoldable pub days_in : ℕ → ℕ → ℕ
days_in y m =
    if m == 2
    then (if is_leap y then 29 else 28)
    else if m == 4 || m == 6 || m == 9 || m == 11
    then 30
    else 31

abbrev pub is_day : ℕ → ℕ → ℕ → Bool
is_day y m d = leb 1 d && leb d (days_in y m)

-- Printing: two digits, and four for a year.
abbrev pub two : ℕ → Text
two n = (b'0' + n / 10) ∷ (b'0' + n % 10) ∷ []

unfoldable pub pad_year : ℕ → Text
pad_year y = if ltb y 10000 then two (y / 100) ++ two (y % 100) else decimal y

-- The layouts `2006-01-02` and `15-04-05`.
unfoldable pub format_date : Timestamp → Text
unfolding pad_year
format_date t = pad_year t.year ++ b'-' ∷ (two t.month ++ b'-' ∷ two t.day)

unfoldable pub format_clock : Timestamp → Text
format_clock t = two t.hour ++ b'-' ∷ (two t.minute ++ b'-' ∷ two t.second)

-- The layout RFC3339, in UTC.
unfoldable pub format_rfc3339 : Timestamp → Text
unfolding format_date
format_rfc3339 t =
    format_date t
    ++ b'T' ∷ (two t.hour ++ b':' ∷ (two t.minute ++ b':' ∷ (two t.second ++ b'Z' ∷ [])))

-- `t.Before(u)`: the fields are compared from the year on.
abbrev before_fields : List ℕ → List ℕ → Bool
before_fields [] vs = false
before_fields (u ∷ us) [] = false
before_fields (u ∷ us) (v ∷ vs) = ltb u v || (u == v && before_fields us vs)

abbrev fields : Timestamp → List ℕ
fields t = t.year ∷ t.month ∷ t.day ∷ t.hour ∷ t.minute ∷ t.second ∷ t.nanos ∷ []

unfoldable pub is_before : Timestamp → Timestamp → Bool
is_before t u = before_fields (fields t) (fields u)

infixl 5 ◌>>=◌
abbrev pub ◌>>=◌ {ℓ κ} : {A : Type ℓ} {B : Type κ} → Option A → (A → Option B) → Option B
none >>= f = none
some a >>= f = f a

-- `getnum`: two digits, or, where the layout does not fix the width, one.
unfoldable pub two_digits : Text → Option (ℕ × Text)
two_digits [] = none
two_digits (a ∷ []) = none
two_digits (a ∷ b ∷ s) =
    if is_digit a && is_digit b then some ((a - b'0') * 10 + (b - b'0'), s) else none

unfoldable pub one_or_two_digits : Text → Option (ℕ × Text)
one_or_two_digits [] = none
one_or_two_digits (a ∷ []) = if is_digit a then some (a - b'0', []) else none
one_or_two_digits (a ∷ b ∷ s) =
    if is_digit a
    then (if is_digit b then some ((a - b'0') * 10 + (b - b'0'), s) else some (a - b'0', b ∷ s))
    else none

unfoldable pub four_digits : Text → Option (ℕ × Text)
unfolding two_digits
four_digits s = do (a, s) ← two_digits s; (b, s) ← two_digits s; some (a * 100 + b, s)

abbrev pub dash : Text → Option Text
dash [] = none
dash (c ∷ s) = if c == b'-' then some s else none

unfoldable pub drop_spaces : Text → Text
drop_spaces [] = []
drop_spaces (c ∷ s) = let rest = drop_spaces s in if c == b' ' then rest else c ∷ s

-- A space of the layout: any number of spaces, or the end of the text.
unfoldable pub skip_space : Text → Option Text
unfolding drop_spaces
skip_space [] = some []
skip_space (c ∷ s) = if c == b' ' then some (drop_spaces s) else none

abbrev pub check : Bool → Option (Unit {0})
check true = some tt
check false = none

-- A fraction of the seconds that the layout does not name: the digits beyond nine are dropped, and
-- `weight` is the value of the next digit.
unfoldable pub fraction : ℕ → ℕ → Text → ℕ × Text
fraction weight acc [] = (acc, [])
fraction weight acc (c ∷ s) =
    let rest = fraction (weight / 10) (acc + (c - b'0') * weight) s in
    if is_digit c then rest else (acc, c ∷ s)

unfoldable pub skip_fraction : Text → ℕ × Text
unfolding fraction
skip_fraction [] = (0, [])
skip_fraction (p ∷ []) = (0, p ∷ [])
skip_fraction (p ∷ d ∷ s) =
    if (p == b'.' || p == b',') && is_digit d then fraction 100000000 0 (d ∷ s) else (0, p ∷ d ∷ s)

abbrev is_end : Text → Bool
is_end [] = true
is_end (c ∷ s) = false

-- The part `2006-01-02` of the layout: year, month and day, and the rest of the text.
unfoldable pub parse_date : Text → Option (ℕ × ℕ × ℕ × Text)
unfolding four_digits two_digits
parse_date s = do
  (year, s) ← four_digits s
  s ← dash s
  (month, s) ← two_digits s
  _ ← check (leb 1 month && leb month 12)
  s ← dash s
  (day, s) ← two_digits s
  some (year, month, day, s)

-- The part `15-04-05`: hour, minute, second, and the rest of the text.
unfoldable pub parse_clock : Text → Option (ℕ × ℕ × ℕ × Text)
unfolding two_digits one_or_two_digits
parse_clock s = do
  (hour, s) ← one_or_two_digits s
  _ ← check (ltb hour 24)
  s ← dash s
  (minute, s) ← two_digits s
  _ ← check (ltb minute 60)
  s ← dash s
  (second, s) ← two_digits s
  _ ← check (ltb second 60)
  some (hour, minute, second, s)

-- time.Parse("2006-01-02 15-04-05", s)
unfoldable pub parse_timestamp : Text → Option Timestamp
unfolding parse_date parse_clock skip_space skip_fraction
parse_timestamp s = do
  (year, month, day, s) ← parse_date s
  s ← skip_space s
  (hour, minute, second, s) ← parse_clock s
  let (nanos, s) = skip_fraction s
  _ ← check (is_end s && is_day year month day)
  some (record {
    year = year;
    month = month;
    day = day;
    hour = hour;
    minute = minute;
    second = second;
    nanos = nanos;
  })
