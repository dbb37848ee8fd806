-- ===== src/LogParser/ConfigLine/Laws.antt =====
-- cmd/logparser/main.go: which settings `parseConfig` finds in a line.
use knative_benchmark.Prelude.{
  text_eq, ℕ, ◌≤◌, ◌≡◌, ◌≢◌, refl, ap, ◌∙◌, Bool, true, false, [], ◌∷◌, ◌++◌, Option, none, some,
  Text, codes, has_prefix, is_empty, length, drop, Dict, lookup, lookup-insert, pos, arith,
}
use knative_benchmark.Decimal.{is_digit, decimal, max_int}
use knative_benchmark.Decimal.Laws.{Digits, decimal-Digits, decimal-ne-nil, atoi-decimal}
use knative_benchmark.LogParser.Pairs.{is_word, span}
use knative_benchmark.LogParser.ConfigLine.{
  find_after, Setting, number, text, add_config_value, set_text, parse_config,
}

-- The label does not begin anywhere in `before`, when `after` follows.
abbrev pub NoMatch : Text → Text → Text → Type 0
NoMatch label [] after = Unit
NoMatch label (c ∷ before) after =
    (has_prefix (c ∷ before ++ after) label ≡ false) × NoMatch label before after

has_prefix-append : (label s : Text) → has_prefix (label ++ s) label ≡ true
has_prefix-append [] s = refl
has_prefix-append (c ∷ label) s = ground (arith, has_prefix-append label s)

drop-append : (label s : Text) → drop (length label) (label ++ s) ≡ s
drop-append [] s = refl
drop-append (c ∷ label) s = drop-append label s

find_after-skip :
    (class : ℕ → Bool) (label before after : Text)
    → NoMatch label before after
    → find_after class label (before ++ after) ≡ find_after class label after
unfolding find_after
find_after-skip class label [] after _ = refl
find_after-skip class label (c ∷ before) after (h, hs) =
    rw h (find_after-skip class label before after hs)

find_after-here :
    (class : ℕ → Bool) (c : ℕ) (label s : Text)
    → is_empty (span class s).0 ≡ false
    → find_after class (c ∷ label) ((c ∷ label) ++ s) ≡ some (span class s).0
unfolding find_after
find_after-here class c label s h =
    rw (has_prefix-append (c ∷ label) s, drop-append label s, h) refl

abbrev pub idle_label : Text
idle_label = codes "IdleConnTimeout:"

abbrev pub timeout_label : Text
timeout_label = codes "Timeout:"

-- Of a line in which the label `IdleConnTimeout:` comes before any other `Timeout:` and has a
-- value, the idle timeout is recorded as the timeout too, whatever timeout the line gives behind
-- it.
pub parse_config-timeout :
    (before s : Text)
    → NoMatch timeout_label before (idle_label ++ s)
    → NoMatch idle_label before (idle_label ++ s)
    → is_empty (span is_word s).0 ≡ false
    → let config = parse_config (before ++ (idle_label ++ s)) in
      (lookup (codes "idle_conn_timeout") config ≡ some (text (span is_word s).0))
      × (lookup (codes "timeout") config ≡ some (text (span is_word s).0))
unfolding parse_config add_config_value
parse_config-timeout before s no_timeout no_idle value =
    let idle : find_after is_word idle_label (before ++ (idle_label ++ s))
        ≡ some (span is_word s).0 =
      find_after-skip is_word idle_label before (idle_label ++ s) no_idle
      ∙ find_after-here is_word b'I' (codes "dleConnTimeout:") s value in
    let timeout : find_after is_word timeout_label (before ++ (idle_label ++ s))
        ≡ some (span is_word s).0 =
      find_after-skip is_word timeout_label before (idle_label ++ s) no_timeout
      ∙ find_after-skip is_word timeout_label (codes "IdleConn") (timeout_label ++ s)
          (refl, (refl, (refl, (refl, (refl, (refl, (refl, (refl, tt))))))))
      ∙ find_after-here is_word b'T' (codes "imeout:") s value in
    rw (idle, timeout) (rw (lookup-insert, lookup-insert) refl, rw lookup-insert refl)

not_empty : (s : Text) → s ≢ [] → is_empty s ≡ false
not_empty [] h = absurd (h refl)
not_empty (c ∷ s) _ = refl

-- A setting of another key leaves the number of requests per second alone.
set_text-other :
    (key : Text) (o : Option Text) (config : Dict Setting)
    → text_eq key (codes "requests_per_second") ≡ false
    → lookup (codes "requests_per_second") (set_text key o config)
      ≡ lookup (codes "requests_per_second") config
set_text-other key none config h = refl
set_text-other key (some v) config h =
    lookup-insert key (codes "requests_per_second") (text v) config ∙ rw h refl

add_config_value-other :
    (class : ℕ → Bool) (label key line : Text) (config : Dict Setting)
    → text_eq key (codes "requests_per_second") ≡ false
    → lookup (codes "requests_per_second") (add_config_value class label key line config)
      ≡ lookup (codes "requests_per_second") config
unfolding add_config_value
add_config_value-other class label key line config h =
    set_text-other key (find_after class label line) config h

span-Digits :
    (s r : Text) → Digits s → is_empty (span is_digit r).0 ≡ true → (span is_digit (s ++ r)).0 ≡ s
unfolding span
span-Digits [] r _ h = empty-nil (span is_digit r).0 h
  where
    empty-nil : (t : Text) → is_empty t ≡ true → t ≡ []
    empty-nil [] _ = refl
    empty-nil (c ∷ t) p = cc
span-Digits (c ∷ s) r (h, hs) stops = rw h (ap (λ t. c ∷ t) (span-Digits s r hs stops))

-- Of a line whose first label `RequestsPerSecond:` is followed by a number that an `int` holds and
-- then by no digit, just that number is recorded, also where it is only the whole part of a
-- fraction.
pub parse_config-requests_per_second :
    (before r : Text) (n : ℕ)
    → n ≤ max_int
    → NoMatch (codes "RequestsPerSecond:") before (codes "RequestsPerSecond:" ++ (decimal n ++ r))
    → is_empty (span is_digit r).0 ≡ true
    → lookup
        (codes "requests_per_second")
        (parse_config (before ++ (codes "RequestsPerSecond:" ++ (decimal n ++ r))))
      ≡ some (number (pos n))
unfolding parse_config
parse_config-requests_per_second before r n fits no_label stops =
    let digits : (span is_digit (decimal n ++ r)).0 ≡ decimal n =
      span-Digits (decimal n) r (decimal-Digits n) stops in
    let found : find_after is_digit (codes "RequestsPerSecond:")
          (before ++ (codes "RequestsPerSecond:" ++ (decimal n ++ r)))
        ≡ some (decimal n) =
      find_after-skip is_digit (codes "RequestsPerSecond:") before _ no_label
      ∙ find_after-here is_digit b'R' (codes "equestsPerSecond:") (decimal n ++ r)
          (rw digits (not_empty (decimal n) (decimal-ne-nil n)))
      ∙ ap some digits in
    rw (found, atoi-decimal n fits)
      (rw
        (
          add_config_value-other is_word (codes "Timeout:") (codes "timeout") _ _ refl,
          add_config_value-other is_word (codes "IdleConnTimeout:") (codes "idle_conn_timeout") _ _
              refl,
          add_config_value-other is_digit (codes "MaxIdleConnsPerHost:")
              (codes "max_idle_conns_per_host") _ _ refl,
          add_config_value-other is_digit (codes "MaxIdleConns:") (codes "max_idle_conns") _ _ refl,
          add_config_value-other is_word (codes "Duration:") (codes "duration") _ _ refl,
        )
        refl)
