-- ===== src/LogParser/Filename/Language.antt =====
-- cmd/logparser/main.go: the language that `parseFilename` gives.
use knative_benchmark.Prelude.{
  ◌-◌, ◌≡◌, refl, Bool, true, false, List, [], ◌∷◌, ◌++◌, ok, err, ◌>>=◌, or_error, if◌then◌else◌,
  ltb, Text, codes, has_prefix, has_suffix, trim_suffix, split, length, take, get_or, Dict, ℤ,
  Bool-cases, inl, inr, ◌⊎◌, >>=-eq-ok, ok_injective,
}
use knative_benchmark.Timestamp.{Timestamp, parse_timestamp}
use knative_benchmark.LogParser.Filename.{
  unrecognized, bad_timestamp, serving_info, ExperimentInfo, known_language, set_param,
  serving_part, serving_params, eventing_params, classify, parse_filename, rps,
}

-- No language, or one of the known ones.
abbrev pub IsLanguage : Text → Type 0
IsLanguage s = (s ≡ []) ⊎ (known_language s ≡ true)

serving_part-IsLanguage :
    (part : Text) (s s' : Text × Dict ℤ)
    → IsLanguage s.0
    → serving_part part s ≡ ok s'
    → IsLanguage s'.0
unfolding serving_part
serving_part-IsLanguage part (language, params) s' h e = elim (Bool-cases (has_suffix part rps)) [
  | inl suffix ↦
      let (params', _, same) = >>=-eq-ok (set_param rps part params) _ (rw suffix at e) in
      rw (← ok_injective same) h
  | inr other ↦ go (known_language part) refl (ok_injective (rw other at e))
]
  where
    go :
        (b : Bool)
        → known_language part ≡ b
        → (if known_language part then part else language, params) ≡ s'
        → IsLanguage s'.0
    go true known same = rw (← same, known) (inr known)
    go false other same = rw (← same, other) h

serving_params-IsLanguage :
    (parts : List Text) (s s' : Text × Dict ℤ)
    → IsLanguage s.0
    → serving_params parts s ≡ ok s'
    → IsLanguage s'.0
unfolding serving_params
serving_params-IsLanguage [] s s' h e = rw (← ok_injective e) h
serving_params-IsLanguage (part ∷ parts) s s' h e =
    let (s1, first, later) = >>=-eq-ok (serving_part part s) (serving_params parts) e in
    serving_params-IsLanguage parts s1 s' (serving_part-IsLanguage part s s1 h first) later

classify-IsLanguage :
    (t : Timestamp) (parts : List Text) (info : ExperimentInfo)
    → classify t parts ≡ ok info
    → IsLanguage info.language
unfolding classify
classify-IsLanguage t [] info e = cc
classify-IsLanguage t (scenario ∷ parts) info e =
    elim (Bool-cases (has_prefix scenario (codes "eventing"))) [
      | inl eventing ↦
          let (params, _, same) = >>=-eq-ok (eventing_params parts []) _ (rw eventing at e) in
          rw (← ok_injective same) (inl refl)
      | inr other ↦ serving (rw other at e)
    ]
  where
    serving :
        (if has_prefix scenario (codes "serving")
            then (serving_params parts ([], []) >>= λ s. ok (serving_info t scenario s))
            else err unrecognized)
          ≡ ok info
        → IsLanguage info.language
    serving e' = elim (Bool-cases (has_prefix scenario (codes "serving"))) [
      | inl is_serving ↦
          let (s, parsed, same) =
            >>=-eq-ok (serving_params parts ([], [])) _ (rw is_serving at e') in
          rw (← ok_injective same) (serving_params-IsLanguage parts ([], []) s (inl refl) parsed)
      | inr unknown ↦ cc (rw unknown at e')
    ]

-- The language of an accepted file name is empty or one of the known languages.
pub parse_filename-IsLanguage :
    (name : Text) (info : ExperimentInfo) → parse_filename name ≡ ok info → IsLanguage info.language
unfolding parse_filename
parse_filename-IsLanguage name info e =
    let parts = split (trim_suffix name (codes ".log")) b'_' in
    let n = length parts in
    let time = get_or parts (n - 2) [] ++ b' ' ∷ get_or parts (n - 1) [] in
    elim (Bool-cases (ltb n 3)) [
      | inl short ↦ cc (rw short at e)
      | inr long ↦
          let (t, _, classified) =
            >>=-eq-ok (or_error (parse_timestamp time) bad_timestamp) _ (rw long at e) in
          classify-IsLanguage t (take (n - 2) parts) info classified
    ]
