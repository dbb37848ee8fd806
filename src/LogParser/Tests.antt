-- ===== src/LogParser/Tests.antt =====
-- File names and lines of a log, as the workload generator of cmd/workload-generator writes them,
-- and what cmd/logparser/main.go makes of them.
use knative_benchmark.Prelude.{
  map, ℕ, ◌≡◌, refl, true, false, List, [], ◌∷◌, ◌++◌, Option, none, some, ok, Text, codes, split,
  text_eq, is_empty, lookup, ℤ, pos, arith, All, inl, inr,
}
use knative_benchmark.Decimal.{decimal, is_digit}
use knative_benchmark.Timestamp.{days_in, Timestamp, parse_timestamp}
use knative_benchmark.Timestamp.Laws.{IsValid}
use knative_benchmark.Store.{base, log_file_path}
use knative_benchmark.LogParser.Filename.{
  known_language, ExperimentInfo, rps, triggers, classify, parse_filename,
}
use knative_benchmark.LogParser.Filename.Language.{IsLanguage, parse_filename-IsLanguage}
use knative_benchmark.LogParser.Filename.RoundTrip.{parse_filename-log_file_path}
use knative_benchmark.LogParser.Filename.Parts.{prefix_of}
use knative_benchmark.LogParser.Filename.Eventing.{
  EventingPart, rps_part, triggers_part, part_text, parse_filename-eventing,
}
use knative_benchmark.LogParser.Filename.Serving.{
  ServingPart, rate_part, language_part, serving_text, parse_filename-serving,
}
use knative_benchmark.LogParser.Pairs.{is_word, span, parse_key_value_pairs}
use knative_benchmark.LogParser.Pairs.Values.{
  plain, quoted, escaped, value_text, Attr, IsAttr, line_text,
}
use knative_benchmark.LogParser.Pairs.Laws.{HasDistinctKeys, parse_key_value_pairs-line_text}
use knative_benchmark.LogParser.ConfigLine.{number, text, parse_config}
use knative_benchmark.LogParser.ConfigLine.Laws.{
  idle_label, parse_config-timeout, parse_config-requests_per_second,
}
use knative_benchmark.LogParser.Request.{to_lower, parse_request}
use knative_benchmark.LogParser.Request.Laws.{parse_request-is_cold}

abbrev pub noon : Timestamp
noon = record { year = 2024; month = 2; day = 29; hour = 12; minute = 0; second = 5; nanos = 7 }

noon-IsValid : IsValid noon
unfolding days_in
noon-IsValid = record {
  year = omega arith;
  month = (omega arith, omega arith);
  day = refl;
  hour = omega arith;
  minute = omega arith;
  second = omega arith;
}

abbrev logs : Text
logs = codes "/logs"

parse_filename-log_file_path_example :
    parse_filename (base (log_file_path (codes "serving_10rps_go") logs noon))
    ≡ classify (record noon { nanos = 0 }) (split (codes "serving_10rps_go") b'_')
parse_filename-log_file_path_example =
    parse_filename-log_file_path (codes "serving_10rps_go") logs noon noon-IsValid (ground arith)

go_is_known : known_language (codes "go") ≡ true
unfolding known_language
go_is_known = refl

-- The name `serving-hello_10rps_go`.
abbrev serving_parts : List ServingPart
serving_parts = rate_part 10 ∷ language_part (codes "go") ∷ []

abbrev serving_log : Text
serving_log =
    base
      (log_file_path (prefix_of (codes "serving-hello") (map serving_text serving_parts)) logs noon)

abbrev serving_expected : ExperimentInfo
serving_expected = record {
  timestamp = record noon { nanos = 0 };
  language = codes "go";
  scenario = codes "serving-hello";
  params = (rps, pos 10) ∷ [];
}

go_parses : parse_filename serving_log ≡ ok serving_expected
go_parses =
    parse_filename-serving (codes "serving-hello") logs serving_parts noon noon-IsValid refl
      (ground arith) (ground arith) (omega arith, (go_is_known, tt))

parse_filename-serving_example : parse_filename serving_log ≡ ok serving_expected
parse_filename-serving_example =
    parse_filename-serving (codes "serving-hello") logs serving_parts noon noon-IsValid refl
      (ground arith) (ground arith) (omega arith, (go_is_known, tt))

abbrev eventing_parts : List EventingPart
eventing_parts = rps_part 10 ∷ triggers_part 5 ∷ []

parse_filename-eventing_example :
    parse_filename
      (base (log_file_path (prefix_of (codes "eventing") (map part_text eventing_parts)) logs noon))
    ≡ ok (record {
      timestamp = record noon { nanos = 0 };
      language = [];
      scenario = codes "eventing";
      params = (rps, pos 10) ∷ (triggers, pos 5) ∷ [];
    })
parse_filename-eventing_example =
    parse_filename-eventing (codes "eventing") logs eventing_parts noon noon-IsValid refl
      (ground arith) (ground arith) (omega arith, (omega arith, tt))

parse_filename-IsLanguage_example : IsLanguage (codes "go")
parse_filename-IsLanguage_example = parse_filename-IsLanguage serving_log serving_expected go_parses

abbrev pub attrs : List Attr
attrs =
    (codes "msg", plain (codes "Success"))
    ∷ (codes "isCold", escaped (codes "true"))
    ∷ (codes "target", quoted (codes "http://a b"))
    ∷ []

attrs-IsAttr : All IsAttr attrs
attrs-IsAttr = (
  ((ground arith, ground arith), (ground arith, ground arith)),
  (
    ((ground arith, ground arith), ground arith),
    (((ground arith, ground arith), (ground arith, ground arith)), tt),
  ),
)

attrs-HasDistinctKeys : HasDistinctKeys attrs
attrs-HasDistinctKeys = ((ground arith, (ground arith, tt)), ((ground arith, tt), (tt, tt)))

parse_key_value_pairs-line_text_example :
    lookup (codes "isCold") (parse_key_value_pairs (line_text attrs))
    ≡ some (value_text (escaped (codes "true")))
parse_key_value_pairs-line_text_example =
    parse_key_value_pairs-line_text (codes "isCold") (escaped (codes "true")) attrs attrs-IsAttr
      attrs-HasDistinctKeys (inr (inl refl))

abbrev pub no_time : Text → Option ℕ
no_time s = none

abbrev pub no_duration : Text → Option ℤ
no_duration s = none

parse_request-is_cold_example :
    (parse_request no_time 0 no_duration (line_text attrs)).is_cold
    ≡ text_eq (to_lower (codes "true")) (codes "true")
parse_request-is_cold_example =
    parse_request-is_cold no_time 0 no_duration (escaped (codes "true")) attrs attrs-IsAttr
      attrs-HasDistinctKeys (inr (inl refl)) (omega arith, omega arith)

abbrev idle_value : Text
idle_value = codes "30s Timeout:10s"

thirty : is_empty (span is_word idle_value).0 ≡ false
unfolding span
thirty = refl

parse_config-timeout_example :
    let config = parse_config (codes "{" ++ (idle_label ++ idle_value)) in
    (lookup (codes "idle_conn_timeout") config ≡ some (text (span is_word idle_value).0))
    × (lookup (codes "timeout") config ≡ some (text (span is_word idle_value).0))
parse_config-timeout_example =
    parse_config-timeout (codes "{") idle_value (refl, tt) (refl, tt) thirty

no_more_digits : is_empty (span is_digit (codes ".5 Duration:10s")).0 ≡ true
unfolding span
no_more_digits = refl

parse_config-requests_per_second_example :
    lookup (codes "requests_per_second") (
      parse_config
        (codes "{" ++ (codes "RequestsPerSecond:" ++ (decimal 12 ++ codes ".5 Duration:10s"))))
    ≡ some (number (pos 12))
parse_config-requests_per_second_example =
    parse_config-requests_per_second (codes "{") (codes ".5 Duration:10s") 12 (omega arith)
      (refl, tt) no_more_digits

success_line :
    parse_key_value_pairs (codes "level=INFO msg=Success isCold=\"\\\"true\\\"\" id=\"a b\"")
    ≡ (codes "level", codes "INFO")
      ∷ (codes "msg", codes "Success")
      ∷ (codes "isCold", codes "\"\\\"true\\\"\"")
      ∷ (codes "id", codes "\"a b\"")
      ∷ []
unfolding parse_key_value_pairs
success_line = refl

parse_timestamp_test :
    parse_timestamp (codes "2024-02-29 09-05-07")
    ≡ some
        (record { year = 2024; month = 2; day = 29; hour = 9; minute = 5; second = 7; nanos = 0 })
unfolding parse_timestamp days_in
parse_timestamp_test = refl
