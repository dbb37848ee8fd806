-- ===== src/LogParser/ConfigLine.antt =====
-- cmd/logparser/main.go, `parseConfig`: the settings in the line that logs the configuration.
pub mod Laws
use knative_benchmark.Prelude.{
  ℕ, Bool, true, false, List, [], ◌∷◌, ◌++◌, Option, none, some, Result, ok, err, if◌then◌else◌,
  Text, codes, has_prefix, is_empty, length, drop, Dict, insert, ℤ,
}
use knative_benchmark.Decimal.{is_digit, atoi, NumError}
use knative_benchmark.LogParser.Pairs.{is_word, span}

-- `FindStringSubmatch` of a label and one or more bytes of a class: the bytes behind the leftmost
-- label that such a byte follows.
unfoldable pub find_after : (ℕ → Bool) → Text → Text → Option Text
unfolding span
find_after class label [] = none
find_after class label (c ∷ s) =
    let rest = find_after class label s in
    let run = (span class (drop (length label) (c ∷ s))).0 in
    if has_prefix (c ∷ s) label then (if is_empty run then rest else some run) else rest

-- A value of the map: `interface{}` holding an int or a string.
pub data Setting : Type 0 where
  number : ℤ → Setting
  text : Text → Setting

abbrev set_number : Text → Result NumError ℤ → Dict Setting → Dict Setting
set_number key (ok n) config = insert key (number n) config
set_number key (err e) config = config

abbrev set_text : Text → Option Text → Dict Setting → Dict Setting
set_text key none config = config
set_text key (some v) config = insert key (text v) config

-- `addConfigValue` for the regular expression of this label and class.
unfoldable pub add_config_value : (ℕ → Bool) → Text → Text → Text → Dict Setting → Dict Setting
add_config_value class label key line config = set_text key (find_after class label line) config

abbrev requests_per_second_of : Option Text → Dict Setting → Dict Setting
requests_per_second_of none config = config
requests_per_second_of (some digits) config =
    set_number (codes "requests_per_second") (atoi digits) config

unfoldable pub parse_config : Text → Dict Setting
unfolding add_config_value
parse_config line =
    let c0 = requests_per_second_of (find_after is_digit (codes "RequestsPerSecond:") line) [] in
    let c1 = add_config_value is_word (codes "Duration:") (codes "duration") line c0 in
    let c2 = add_config_value is_digit (codes "MaxIdleConns:") (codes "max_idle_conns") line c1 in
    let c3 =
      add_config_value is_digit (codes "MaxIdleConnsPerHost:") (codes "max_idle_conns_per_host")
        line c2 in
    let c4 =
      add_config_value is_word (codes "IdleConnTimeout:") (codes "idle_conn_timeout") line c3 in
    add_config_value is_word (codes "Timeout:") (codes "timeout") line c4
