-- ===== src/LogParser/Filename.antt =====
-- cmd/logparser/main.go, `parseFilename`: what the name of a log file says of the experiment.
pub mod Language
pub mod Bounds
pub mod RoundTrip
pub mod Parts
pub mod Eventing
pub mod Serving
use knative_benchmark.Prelude.{
  has_text, ℕ, ◌-◌, Bool, true, false, ◌||◌, List, [], ◌∷◌, ◌++◌, Option, none, some, Result, ok,
  err, ◌>>=◌, or_error, if◌then◌else◌, ltb, Text, codes, text_eq, has_prefix, has_suffix,
  trim_suffix, split, length, take, get_or, Dict, insert, ℤ,
}
use knative_benchmark.Decimal.{NumError, atoi}
use knative_benchmark.Timestamp.{Timestamp, parse_timestamp}

-- The errors; `bad_number` names the parameter, and `out_of_bounds` is the panic of `parts[0]`.
pub data FilenameError : Type 0 where
  bad_format bad_timestamp unrecognized out_of_bounds : FilenameError
  bad_number : Text → NumError → FilenameError

pub record ExperimentInfo : Type 0 where
  pub timestamp : Timestamp
  pub language : Text
  pub scenario : Text
  pub params : Dict ℤ

abbrev pub rps : Text
rps = codes "rps"

abbrev pub triggers : Text
triggers = codes "triggers"

abbrev pub workers : Text
workers = codes "workers"

-- `knownLanguages`
abbrev pub languages : List Text
languages =
    codes "go"
    ∷ codes "python"
    ∷ codes "rust"
    ∷ codes "typescript"
    ∷ codes "ts"
    ∷ codes "quarkus"
    ∷ codes "springboot"
    ∷ codes "all"
    ∷ []

unfoldable pub known_language : Text → Bool
known_language s = has_text s languages

abbrev named : Text → Result NumError ℤ → Result FilenameError ℤ
named key (ok n) = ok n
named key (err e) = err (bad_number key e)

-- `strconv.Atoi(strings.TrimSuffix(part, key))`, and `params[key] = val`.
unfoldable pub set_param : Text → Text → Dict ℤ → Result FilenameError (Dict ℤ)
set_param key part params = do
  val ← named key (atoi (trim_suffix part key))
  ok (insert key val params)

unfoldable pub add_param : Text → Text → Dict ℤ → Result FilenameError (Dict ℤ)
unfolding set_param
add_param key part params = if has_suffix part key then set_param key part params else ok params

-- The loop over the parts of an eventing scenario; one part may set several parameters.
unfoldable pub eventing_params : List Text → Dict ℤ → Result FilenameError (Dict ℤ)
unfolding add_param
eventing_params [] params = ok params
eventing_params (part ∷ parts) params = do
  params ← add_param rps part params
  params ← add_param triggers part params
  params ← add_param workers part params
  eventing_params parts params

-- One round of the loop over the parts of a serving scenario.
unfoldable pub serving_part : Text → Text × Dict ℤ → Result FilenameError (Text × Dict ℤ)
unfolding set_param known_language
serving_part part (language, params) =
    if has_suffix part rps
    then (set_param rps part params >>= λ params'. ok (language, params'))
    else ok (if known_language part then part else language, params)

unfoldable pub serving_params : List Text → Text × Dict ℤ → Result FilenameError (Text × Dict ℤ)
unfolding serving_part
serving_params [] s = ok s
serving_params (part ∷ parts) s = serving_part part s >>= serving_params parts

abbrev pub serving_info : Timestamp → Text → Text × Dict ℤ → ExperimentInfo
serving_info timestamp scenario (language, params) = record {
  timestamp = timestamp;
  language = language;
  scenario = scenario;
  params = params;
}

-- The scenario of the parts before the timestamp.
unfoldable pub classify : Timestamp → List Text → Result FilenameError ExperimentInfo
unfolding eventing_params serving_params
classify timestamp [] = err out_of_bounds
classify timestamp (scenario ∷ parts) =
    if has_prefix scenario (codes "eventing")
    then (do
      params ← eventing_params parts []
      ok (record { timestamp = timestamp; language = []; scenario = scenario; params = params }))
    else if has_prefix scenario (codes "serving")
    then (serving_params parts ([], []) >>= λ s. ok (serving_info timestamp scenario s))
    else err unrecognized

unfoldable pub parse_filename : Text → Result FilenameError ExperimentInfo
unfolding classify
parse_filename filename =
    let parts = split (trim_suffix filename (codes ".log")) b'_' in
    let n = length parts in
    if ltb n 3 then err bad_format else (do
      timestamp ←
          or_error (parse_timestamp (get_or parts (n - 2) [] ++ b' ' ∷ get_or parts (n - 1) []))
            bad_timestamp
      classify timestamp (take (n - 2) parts))
