-- ===== src/LogParser/Filename/Eventing.antt =====
-- cmd/workload-generator/main.go and cmd/logparser/main.go: the names of the logs of eventing
-- experiments.
use mathlib.Core.List.{reverse, reverse-append}
use knative_benchmark.Prelude.{
  ℕ, ◌≤◌, ◌≡◌, ◌≢◌, refl, sym, ap, ◌∙◌, true, [], ◌∷◌, ◌++◌, ok, Text, codes, has_prefix,
  has_suffix, has_suffix-append, has_suffix_of_append, Dict, insert, ℤ, pos, arith, Bool-cases, inl,
  inr, Lacks, All, List, map,
}
use knative_benchmark.Decimal.{decimal, max_int}
use knative_benchmark.Timestamp.{Timestamp}
use knative_benchmark.Timestamp.Laws.{IsValid}
use knative_benchmark.Store.{log_file_path, base}
use knative_benchmark.LogParser.Filename.{
  rps, triggers, workers, add_param, eventing_params, classify, parse_filename,
}
use knative_benchmark.LogParser.Filename.RoundTrip.{parse_filename-log_file_path}
use knative_benchmark.LogParser.Filename.Parts.{
  with_key, IsSeparator, with_key-Lacks, rps-Lacks, set_param-with_key, prefix_of, split-prefix_of,
  prefix_of-Lacks,
}

triggers-Lacks : (b : ℕ) → IsSeparator b → Lacks b triggers
triggers-Lacks b (inl e) = omega arith
triggers-Lacks b (inr e) = omega arith

workers-Lacks : (b : ℕ) → IsSeparator b → Lacks b workers
workers-Lacks b (inl e) = omega arith
workers-Lacks b (inr e) = omega arith

add_param-with_key :
    (n : ℕ) (key : Text) (params : Dict ℤ)
    → n ≤ max_int
    → add_param key (with_key n key) params ≡ ok (insert key (pos n) params)
unfolding add_param
add_param-with_key n key params fits =
    rw (has_suffix_of_append (decimal n) key) (set_param-with_key n key params fits)

-- Two keys that read backwards in different ways are not suffixes of one text.
add_param_other :
    (n : ℕ) (key other : Text) (params : Dict ℤ)
    → ((r q : Text) → reverse key ++ r ≢ reverse other ++ q)
    → add_param other (with_key n key) params ≡ ok params
unfolding add_param
add_param_other n key other params clash = elim (Bool-cases (has_suffix (with_key n key) other)) [
  | inl e ↦
      let (p, same) = has_suffix-append (with_key n key) other e in
      absurd (
        clash (reverse (decimal n)) (reverse p)
          (sym (reverse-append (decimal n) key) ∙ ap reverse same ∙ reverse-append p other))
  | inr e ↦ rw e refl
]

rps_triggers : (r q : Text) → reverse rps ++ r ≢ reverse triggers ++ q
rps_triggers r q = ground arith

rps_workers : (r q : Text) → reverse rps ++ r ≢ reverse workers ++ q
rps_workers r q = ground arith

triggers_workers : (r q : Text) → reverse triggers ++ r ≢ reverse workers ++ q
triggers_workers r q = ground arith

flip_clash :
    (key other : Text)
    → ((r q : Text) → reverse key ++ r ≢ reverse other ++ q)
    → (r q : Text) → reverse other ++ r ≢ reverse key ++ q
flip_clash key other clash r q e = clash q r (sym e)

-- A part of the name of an eventing experiment: a number of requests per second, of triggers or of
-- workers.
pub data EventingPart : Type 0 where
  rps_part triggers_part workers_part : ℕ → EventingPart

abbrev pub key_of_part : EventingPart → Text
key_of_part (rps_part n) = rps
key_of_part (triggers_part n) = triggers
key_of_part (workers_part n) = workers

abbrev pub number_of_part : EventingPart → ℕ
number_of_part (rps_part n) = n
number_of_part (triggers_part n) = n
number_of_part (workers_part n) = n

abbrev pub part_text : EventingPart → Text
part_text p = with_key (number_of_part p) (key_of_part p)

-- The numbers of the parts, under their keys; of one key's numbers the last.
abbrev pub numbers_of : List EventingPart → Dict ℤ → Dict ℤ
numbers_of [] m = m
numbers_of (p ∷ ps) m = numbers_of ps (insert (key_of_part p) (pos (number_of_part p)) m)

part_text-Lacks :
    (b : ℕ) (ps : List EventingPart) → IsSeparator b → All (Lacks b) (map part_text ps)
part_text-Lacks b [] sep = tt
part_text-Lacks b (rps_part n ∷ ps) sep =
    (with_key-Lacks b n rps sep (rps-Lacks b sep), part_text-Lacks b ps sep)
part_text-Lacks b (triggers_part n ∷ ps) sep =
    (with_key-Lacks b n triggers sep (triggers-Lacks b sep), part_text-Lacks b ps sep)
part_text-Lacks b (workers_part n ∷ ps) sep =
    (with_key-Lacks b n workers sep (workers-Lacks b sep), part_text-Lacks b ps sep)

eventing_params-numbers_of :
    (ps : List EventingPart) (m : Dict ℤ)
    → All (λ p. number_of_part p ≤ max_int) ps
    → eventing_params (map part_text ps) m ≡ ok (numbers_of ps m)
unfolding eventing_params
eventing_params-numbers_of [] m _ = refl
eventing_params-numbers_of (rps_part n ∷ ps) m (h, hs) =
    rw
      (
        add_param-with_key n rps m h,
        add_param_other n rps triggers _ rps_triggers,
        add_param_other n rps workers _ rps_workers,
      )
      (eventing_params-numbers_of ps _ hs)
eventing_params-numbers_of (triggers_part n ∷ ps) m (h, hs) =
    rw
      (
        add_param_other n triggers rps _ (flip_clash rps triggers rps_triggers),
        add_param-with_key n triggers m h,
        add_param_other n triggers workers _ triggers_workers,
      )
      (eventing_params-numbers_of ps _ hs)
eventing_params-numbers_of (workers_part n ∷ ps) m (h, hs) =
    rw
      (
        add_param_other n workers rps _ (flip_clash rps workers rps_workers),
        add_param_other n workers triggers _ (flip_clash triggers workers triggers_workers),
        add_param-with_key n workers m h,
      )
      (eventing_params-numbers_of ps _ hs)

-- The log of an eventing experiment at a valid time, named by a scenario that begins with `eventing`
-- and has no underscore and no slash, and by any parts in any order, each a number of requests per
-- second, triggers or workers that an `int` holds, is recognised with that scenario, these numbers,
-- of two for one key the later, no language and its time up to the second.
pub parse_filename-eventing :
    (scenario dir : Text) (ps : List EventingPart) (t : Timestamp)
    → IsValid t
    → has_prefix scenario (codes "eventing") ≡ true
    → Lacks b'_' scenario
    → Lacks b'/' scenario
    → All (λ p. number_of_part p ≤ max_int) ps
    → parse_filename (base (log_file_path (prefix_of scenario (map part_text ps)) dir t))
      ≡ ok (record {
        timestamp = record t { nanos = 0 };
        language = [];
        scenario = scenario;
        params = numbers_of ps [];
      })
unfolding classify
parse_filename-eventing scenario dir ps t v starts lacks slashless fit =
    parse_filename-log_file_path (prefix_of scenario (map part_text ps)) dir t v
      (prefix_of-Lacks scenario (map part_text ps) slashless (part_text-Lacks b'/' ps (inr refl)))
    ∙ rw (split-prefix_of scenario (map part_text ps) lacks (part_text-Lacks b'_' ps (inl refl)))
        (rw starts (rw (eventing_params-numbers_of ps [] fit) refl))
