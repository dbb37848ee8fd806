-- ===== src/LogParser/Filename/Parts.antt =====
-- cmd/workload-generator/main.go and cmd/logparser/main.go: the parts of the names of logs.
use knative_benchmark.Prelude.{
  ℕ, ◌≤◌, ◌≡◌, ◌≢◌, refl, ap, [], ◌∷◌, ◌++◌, ok, Text, trim_suffix-append, split, split_part,
  split_whole, Dict, insert, ℤ, pos, arith, inl, inr, Lacks, All, All-append, List, ◌⊎◌,
}
use knative_benchmark.Decimal.{decimal, max_int}
use knative_benchmark.Decimal.Laws.{atoi-decimal, decimal-Digits, Digits}
use knative_benchmark.LogParser.Filename.{rps, set_param}

-- A number with its key, as in `100rps`.
abbrev pub with_key : ℕ → Text → Text
with_key n key = decimal n ++ key

-- What stands between parts or elements of a path.
abbrev pub IsSeparator : ℕ → Type 0
IsSeparator b = (b ≡ b'_') ⊎ (b ≡ b'/')

Digits-Lacks : (b : ℕ) (s : Text) → IsSeparator b → Digits s → Lacks b s
Digits-Lacks b [] _ _ = tt
Digits-Lacks b (c ∷ s) (inl e) (h, hs) = (λ e'. ground arith, Digits-Lacks b s (inl e) hs)
Digits-Lacks b (c ∷ s) (inr e) (h, hs) = (λ e'. ground arith, Digits-Lacks b s (inr e) hs)

pub with_key-Lacks : (b n : ℕ) (key : Text) → IsSeparator b → Lacks b key → Lacks b (with_key n key)
with_key-Lacks b n key sep h =
    All-append (λ c. c ≢ b) (decimal n) key (Digits-Lacks b (decimal n) sep (decimal-Digits n)) h

pub rps-Lacks : (b : ℕ) → IsSeparator b → Lacks b rps
rps-Lacks b (inl e) = omega arith
rps-Lacks b (inr e) = omega arith

pub set_param-with_key :
    (n : ℕ) (key : Text) (params : Dict ℤ)
    → n ≤ max_int
    → set_param key (with_key n key) params ≡ ok (insert key (pos n) params)
unfolding set_param
set_param-with_key n key params fits = rw trim_suffix-append (rw (atoi-decimal n fits) refl)

-- A prefix: the scenario and the parts behind it.
abbrev pub prefix_of : Text → List Text → Text
prefix_of scenario [] = scenario
prefix_of scenario (part ∷ parts) = scenario ++ b'_' ∷ prefix_of part parts

pub split-prefix_of :
    (scenario : Text) (parts : List Text)
    → Lacks b'_' scenario
    → All (Lacks b'_') parts
    → split (prefix_of scenario parts) b'_' ≡ scenario ∷ parts
split-prefix_of scenario [] h _ = split_whole scenario b'_' h
split-prefix_of scenario (part ∷ parts) h (hp, hps) =
    rw (split_part scenario (prefix_of part parts) b'_' h)
      (ap (λ r. scenario ∷ r) (split-prefix_of part parts hp hps))

pub prefix_of-Lacks :
    (scenario : Text) (parts : List Text)
    → Lacks b'/' scenario
    → All (Lacks b'/') parts
    → Lacks b'/' (prefix_of scenario parts)
prefix_of-Lacks scenario [] h _ = h
prefix_of-Lacks scenario (part ∷ parts) h (hp, hps) =
    All-append (λ c. c ≢ b'/') scenario (b'_' ∷ prefix_of part parts) h
      (omega arith, prefix_of-Lacks part parts hp hps)
