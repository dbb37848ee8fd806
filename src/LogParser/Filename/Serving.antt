-- ===== src/LogParser/Filename/Serving.antt =====
-- cmd/workload-generator/main.go and cmd/logparser/main.go: the names of the logs of serving
-- experiments.
use knative_benchmark.Prelude.{
  ℕ, ◌≤◌, ◌≡◌, refl, ◌∙◌, true, false, [], ◌∷◌, ok, Text, codes, has_prefix, has_suffix,
  has_suffix_of_append, Dict, insert, ℤ, pos, arith, inl, inr, Lacks, All, All-has_text, List, map,
  ◌⊎◌,
}
use knative_benchmark.Decimal.{decimal, max_int}
use knative_benchmark.Timestamp.{Timestamp}
use knative_benchmark.Timestamp.Laws.{IsValid}
use knative_benchmark.Store.{log_file_path, base}
use knative_benchmark.LogParser.Filename.{
  rps, languages, known_language, serving_part, serving_params, classify, parse_filename,
}
use knative_benchmark.LogParser.Filename.RoundTrip.{parse_filename-log_file_path}
use knative_benchmark.LogParser.Filename.Parts.{
  with_key, IsSeparator, with_key-Lacks, rps-Lacks, set_param-with_key, prefix_of, split-prefix_of,
  prefix_of-Lacks,
}

language-Lacks : (b : ℕ) (s : Text) → IsSeparator b → known_language s ≡ true → Lacks b s
unfolding known_language
language-Lacks b s (inl e) h = rw e (All-has_text (Lacks b'_') s languages h (omega arith))
language-Lacks b s (inr e) h = rw e (All-has_text (Lacks b'/') s languages h (omega arith))

language_no_rps : (s : Text) → known_language s ≡ true → has_suffix s rps ≡ false
unfolding known_language
language_no_rps s h =
    All-has_text (λ l. has_suffix l rps ≡ false) s languages h
      (refl, (refl, (refl, (refl, (refl, (refl, (refl, (refl, tt))))))))

-- A part of the name of a serving experiment: a number of requests per second or a language.
pub data ServingPart : Type 0 where
  rate_part : ℕ → ServingPart
  language_part : Text → ServingPart

abbrev pub serving_text : ServingPart → Text
serving_text (rate_part n) = with_key n rps
serving_text (language_part l) = l

abbrev pub IsServingPart : ServingPart → Type 0
IsServingPart (rate_part n) = n ≤ max_int
IsServingPart (language_part l) = known_language l ≡ true

-- The last language and the last number of requests per second.
abbrev pub last_language : List ServingPart → Text → Text
last_language [] l = l
last_language (rate_part n ∷ ps) l = last_language ps l
last_language (language_part l' ∷ ps) l = last_language ps l'

abbrev pub last_rate : List ServingPart → Dict ℤ → Dict ℤ
last_rate [] m = m
last_rate (rate_part n ∷ ps) m = last_rate ps ((rps, pos n) ∷ [])
last_rate (language_part l ∷ ps) m = last_rate ps m

serving_text-Lacks :
    (b : ℕ) (ps : List ServingPart)
    → IsSeparator b
    → All IsServingPart ps
    → All (Lacks b) (map serving_text ps)
serving_text-Lacks b [] sep _ = tt
serving_text-Lacks b (rate_part n ∷ ps) sep (_, hs) =
    (with_key-Lacks b n rps sep (rps-Lacks b sep), serving_text-Lacks b ps sep hs)
serving_text-Lacks b (language_part l ∷ ps) sep (h, hs) =
    (language-Lacks b l sep h, serving_text-Lacks b ps sep hs)

-- No number of requests per second yet, or one.
abbrev HasOneRate : Dict ℤ → Type 0
HasOneRate m = (m ≡ []) ⊎ ((k : ℤ) × (m ≡ (rps, k) ∷ []))

insert-HasOneRate : (m : Dict ℤ) (n : ℤ) → HasOneRate m → insert rps n m ≡ (rps, n) ∷ []
insert-HasOneRate m n (inl e) = rw e refl
insert-HasOneRate m n (inr (k, e)) = rw e refl

serving_params-last :
    (ps : List ServingPart) (l : Text) (m : Dict ℤ)
    → All IsServingPart ps
    → HasOneRate m
    → serving_params (map serving_text ps) (l, m) ≡ ok (last_language ps l, last_rate ps m)
unfolding serving_params serving_part
serving_params-last [] l m _ _ = refl
serving_params-last (rate_part n ∷ ps) l m (h, hs) one =
    rw
      (
        has_suffix_of_append (decimal n) rps,
        set_param-with_key n rps m h,
        insert-HasOneRate m (pos n) one,
      )
      (serving_params-last ps l ((rps, pos n) ∷ []) hs (inr (pos n, refl)))
serving_params-last (language_part l' ∷ ps) l m (h, hs) one =
    rw (language_no_rps l' h, h) (serving_params-last ps l' m hs one)

serving_not_eventing :
    (s : Text) → has_prefix s (codes "serving") ≡ true → has_prefix s (codes "eventing") ≡ false
serving_not_eventing [] h = refl
serving_not_eventing (c ∷ s) h = ground arith

-- The log of a serving experiment at a valid time, named by a scenario that begins with `serving`
-- and has no underscore and no slash, and by any parts in any order, each a known language or a
-- number of requests per second that an `int` holds, is recognised with that scenario, the last of
-- these languages and of these numbers, if there are any, and its time up to the second.
pub parse_filename-serving :
    (scenario dir : Text) (ps : List ServingPart) (t : Timestamp)
    → IsValid t
    → has_prefix scenario (codes "serving") ≡ true
    → Lacks b'_' scenario
    → Lacks b'/' scenario
    → All IsServingPart ps
    → parse_filename (base (log_file_path (prefix_of scenario (map serving_text ps)) dir t))
      ≡ ok (record {
        timestamp = record t { nanos = 0 };
        language = last_language ps [];
        scenario = scenario;
        params = last_rate ps [];
      })
unfolding classify
parse_filename-serving scenario dir ps t v starts lacks slashless parts =
    parse_filename-log_file_path (prefix_of scenario (map serving_text ps)) dir t v (
      prefix_of-Lacks scenario (map serving_text ps) slashless
        (serving_text-Lacks b'/' ps (inr refl) parts))
    ∙ rw
        (
          split-prefix_of scenario (map serving_text ps) lacks
              (serving_text-Lacks b'_' ps (inl refl) parts),
          serving_not_eventing scenario starts,
          starts,
          serving_params-last ps [] [] parts (inl refl),
        )
        refl
