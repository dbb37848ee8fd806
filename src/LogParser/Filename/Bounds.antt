-- ===== src/LogParser/Filename/Bounds.antt =====
-- cmd/logparser/main.go: the index `parts[0]` of `parseFilename`.
use knative_benchmark.Prelude.{
  suc, ◌-◌, ◌≡◌, ◌≢◌, false, List, [], ◌∷◌, ◌++◌, Option, none, some, Result, ok, err, ◌>>=◌,
  or_error, ltb, Text, codes, has_prefix, has_suffix, trim_suffix, split, length, take, get_or,
  Dict, ℤ, arith, Bool-cases, inl, inr,
}
use knative_benchmark.Decimal.{NumError, atoi}
use knative_benchmark.Timestamp.{Timestamp, parse_timestamp}
use knative_benchmark.LogParser.Filename.{
  named, set_param, add_param, bad_timestamp, FilenameError, out_of_bounds, serving_part,
  serving_params, eventing_params, triggers, workers, classify, parse_filename, rps,
}

-- A result that is not the panic of an index out of bounds.
abbrev InBounds : {A : Type 0} → Result FilenameError A → Type 0
InBounds r = r ≢ err out_of_bounds

InBounds-bind :
    {A B : Type 0} (m : Result FilenameError A) (f : A → Result FilenameError B)
    → InBounds m
    → ((a : A) → InBounds (f a))
    → InBounds (m >>= f)
InBounds-bind (ok a) f _ h = h a
InBounds-bind (err e) f h _ = λ p. h (same_error p)
  where
    same_error :
        {A B : Type 0} {d : FilenameError}
        → ◌≡◌ {A = Result FilenameError B} (err d) (err out_of_bounds)
        → ◌≡◌ {A = Result FilenameError A} (err d) (err out_of_bounds)
    same_error p = cc

named-InBounds : (key : Text) (r : Result NumError ℤ) → InBounds (named key r)
named-InBounds key (ok n) = ground arith
named-InBounds key (err e) = ground arith

set_param-InBounds : (key part : Text) (params : Dict ℤ) → InBounds (set_param key part params)
unfolding set_param
set_param-InBounds key part params =
    InBounds-bind (named key (atoi (trim_suffix part key))) _ (named-InBounds key _)
      λ n. ground arith

add_param-InBounds : (key part : Text) (params : Dict ℤ) → InBounds (add_param key part params)
unfolding add_param
add_param-InBounds key part params = elim (Bool-cases (has_suffix part key)) [
  | inl e ↦ rw e (set_param-InBounds key part params)
  | inr e ↦ rw e (ground arith)
]

eventing_params-InBounds :
    (parts : List Text) (params : Dict ℤ) → InBounds (eventing_params parts params)
unfolding eventing_params
eventing_params-InBounds [] params = ground arith
eventing_params-InBounds (part ∷ parts) params =
    InBounds-bind (add_param rps part params) _ (add_param-InBounds rps part params) λ p.
      InBounds-bind (add_param triggers part p) _ (add_param-InBounds triggers part p) λ q.
        InBounds-bind (add_param workers part q) _ (add_param-InBounds workers part q)
          λ r. eventing_params-InBounds parts r

serving_part-InBounds : (part : Text) (s : Text × Dict ℤ) → InBounds (serving_part part s)
unfolding serving_part
serving_part-InBounds part (language, params) = elim (Bool-cases (has_suffix part rps)) [
  | inl e ↦ rw e (
      InBounds-bind (set_param rps part params) _ (set_param-InBounds rps part params)
        (λ p. ground arith))
  | inr e ↦ rw e (ground arith)
]

serving_params-InBounds :
    (parts : List Text) (s : Text × Dict ℤ) → InBounds (serving_params parts s)
unfolding serving_params
serving_params-InBounds [] s = ground arith
serving_params-InBounds (part ∷ parts) s =
    InBounds-bind (serving_part part s) (serving_params parts) (serving_part-InBounds part s)
      (serving_params-InBounds parts)

classify-InBounds :
    (t : Timestamp) (scenario : Text) (parts : List Text) → InBounds (classify t (scenario ∷ parts))
unfolding classify
classify-InBounds t scenario parts = elim (Bool-cases (has_prefix scenario (codes "eventing"))) [
  | inl e ↦ rw e (
      InBounds-bind (eventing_params parts []) _ (eventing_params-InBounds parts [])
        (λ p. ground arith))
  | inr e ↦ rw e (elim (Bool-cases (has_prefix scenario (codes "serving"))) [
    | inl f ↦ rw f (
        InBounds-bind (serving_params parts ([], [])) _ (serving_params-InBounds parts ([], []))
          (λ p. ground arith))
    | inr f ↦ rw f (ground arith)
  ])
]

or_error-InBounds : {A : Type 0} (o : Option A) → InBounds (or_error o bad_timestamp)
or_error-InBounds none = ground arith
or_error-InBounds (some a) = ground arith

classify-take :
    (t : Timestamp) (parts : List Text)
    → ltb (length parts) 3 ≡ false
    → InBounds (classify t (take (length parts - 2) parts))
classify-take t [] h = absurd (ground arith)
classify-take t (a ∷ []) h = absurd (ground arith)
classify-take t (a ∷ b ∷ []) h = absurd (ground arith)
classify-take t (a ∷ b ∷ c ∷ parts) h =
    let n : length (a ∷ b ∷ c ∷ parts) - 2 ≡ suc (length parts) = omega arith in
    rw n (classify-InBounds t a (take (length parts) (b ∷ c ∷ parts)))

-- `parts[0]` exists: no file name, accepted or not, makes the parser index out of bounds.
parse_filename-in_bounds : (name : Text) → parse_filename name ≢ err out_of_bounds
unfolding parse_filename
parse_filename-in_bounds name =
    let parts = split (trim_suffix name (codes ".log")) b'_' in
    let n = length parts in
    let time = get_or parts (n - 2) [] ++ b' ' ∷ get_or parts (n - 1) [] in
    elim (Bool-cases (ltb n 3)) [
      | inl short ↦ rw short (ground arith)
      | inr long ↦ rw long (
          InBounds-bind (or_error (parse_timestamp time) bad_timestamp) _
            (or_error-InBounds (parse_timestamp time)) (λ t. classify-take t parts long))
    ]
