-- ===== src/LogParser/Request.antt =====
-- cmd/logparser/main.go, `parseRequest`: a row of the requests from a line of the log.
pub mod Laws
use knative_benchmark.Prelude.{
  ℕ, zero, suc, ◌+◌, ◌/◌, ◌-◌, Bool, true, false, ◌&&◌, List, [], ◌∷◌, ◌++◌, Option, none, some,
  if◌then◌else◌, ◌==◌, Text, codes, text_eq, is_empty, Dict, lookup, ℤ, pos, negsuc, leb,
}
use knative_benchmark.Decimal.{atoi_value}
use knative_benchmark.LogParser.Pairs.{quote, backslash, parse_key_value_pairs}

-- The durations are whole milliseconds, the values that `float64(d.Milliseconds())` can have.
pub record RequestInfo (T : Type 0) : Type 0 where
  pub timestamp : T
  pub eventid : Text
  pub status : ℤ
  pub ttfb : ℤ
  pub total : ℤ
  pub is_cold : Bool
  pub dns : ℤ
  pub connect : ℤ
  pub tls : ℤ
  pub error_message : Text
  pub target : Text

-- strings.ReplaceAll(s, `\"`, "")
unfoldable pub remove_escaped : Text → Text
remove_escaped [] = []
remove_escaped (c ∷ []) = c ∷ []
remove_escaped (c ∷ d ∷ s) =
    let rest = remove_escaped s in
    let kept = c ∷ remove_escaped (d ∷ s) in if c == backslash && d == quote then rest else kept

-- strings.Trim(s, `"`)
unfoldable pub trim_left : Text → Text
trim_left [] = []
trim_left (c ∷ s) = let rest = trim_left s in if c == quote then rest else c ∷ s

unfoldable pub trim_right : Text → Text
trim_right [] = []
trim_right (c ∷ s) = let rest = trim_right s in if c == quote && is_empty rest then [] else c ∷ rest

-- strings.ToLower, on ASCII letters: no other letter has one of `true` for its lower case.
unfoldable pub to_lower : Text → Text
to_lower [] = []
to_lower (c ∷ s) = (if leb b'A' c && leb c b'Z' then c + 32 else c) ∷ to_lower s

unfoldable pub clean_cold : Text → Text
unfolding remove_escaped trim_left trim_right to_lower
clean_cold s = to_lower (trim_right (trim_left (remove_escaped s)))

abbrev get_text : Option Text → Text
get_text none = []
get_text (some v) = v

abbrev status_of : Option Text → ℤ
status_of none = pos 0
status_of (some s) = atoi_value s

abbrev cold_of : Option Text → Bool
cold_of none = false
cold_of (some s) = text_eq (clean_cold s) (codes "true")

-- `Duration.Milliseconds` of a number of nanoseconds: towards zero.
abbrev pub milliseconds : ℤ → ℤ
milliseconds (pos n) = pos (n / 1000000)
milliseconds (negsuc n) = if (suc n) / 1000000 == 0 then pos 0 else negsuc (suc n / 1000000 - 1)

-- `parse_time` is time.Parse with the layout RFC3339Nano, `zero_time` the zero time, and
-- `parse_duration` time.ParseDuration.
module _ {T : Type 0} (parse_time : Text → Option T) (zero_time : T)
    (parse_duration : Text → Option ℤ) where
  abbrev duration_of : Option ℤ → ℤ
  duration_of none = pos 0
  duration_of (some d) = milliseconds d

  unfoldable pub parse_duration_ms : Text → ℤ
  parse_duration_ms s = duration_of (parse_duration s)

  abbrev time_or_zero : Option T → T
  time_or_zero none = zero_time
  time_or_zero (some t) = t

  abbrev time_of : Option Text → T
  time_of none = zero_time
  time_of (some s) = time_or_zero (parse_time s)

  -- A missing key reads as the empty text.
  unfoldable pub request_of_pairs : Dict Text → RequestInfo T
  unfolding parse_duration_ms clean_cold
  request_of_pairs pairs = record {
    timestamp = time_of (lookup (codes "time") pairs);
    eventid = get_text (lookup (codes "id") pairs);
    status = status_of (lookup (codes "status") pairs);
    ttfb = parse_duration_ms (get_text (lookup (codes "TTFB") pairs));
    total = parse_duration_ms (get_text (lookup (codes "Total") pairs));
    is_cold = cold_of (lookup (codes "isCold") pairs);
    dns = parse_duration_ms (get_text (lookup (codes "DNS") pairs));
    connect = parse_duration_ms (get_text (lookup (codes "Connect") pairs));
    tls = parse_duration_ms (get_text (lookup (codes "TLS") pairs));
    error_message =
        if text_eq (get_text (lookup (codes "msg") pairs)) (codes "Failed")
        then get_text (lookup (codes "error") pairs)
        else [];
    target = get_text (lookup (codes "target") pairs);
  }

  -- It has no error to return.
  unfoldable pub parse_request : Text → RequestInfo T
  unfolding request_of_pairs
  parse_request line = request_of_pairs (parse_key_value_pairs line)
