-- ===== src/Pool/Headers/Laws.antt =====
-- pkg/connection/pool.go: a request's headers after the loop over the configured ones.
use knative_benchmark.Prelude.{
  ◌==◌, ℕ, Bool, true, false, ◌≡◌, ◌≢◌, refl, ◌∙◌, [], ◌∷◌, some, arith, Text, Dict, lookup, insert,
  lookup-insert, text_eq_iff, text_eq_refl, All, Bool-cases, inl, inr, ◌⊎◌,
}
use knative_benchmark.Pool.Headers.{
  fix_case, is_lower, is_upper, is_token, all_token, recase, canonical, set_header, set_headers,
}

-- No configured key is spelled canonically like `k`.
abbrev pub IsNew : Text → Dict Text → Type 0
IsNew k = All (λ e. canonical e.0 ≢ k)

-- No two configured keys have one canonical spelling.
abbrev pub HasDistinctKeys : Dict Text → Type 0
HasDistinctKeys [] = Unit
HasDistinctKeys ((k, v) ∷ m) = IsNew (canonical k) m × HasDistinctKeys m

pub lookup-set_headers_new :
    (k : Text) (kvs h : Dict Text) → IsNew k kvs → lookup k (set_headers kvs h) ≡ lookup k h
unfolding set_headers set_header
lookup-set_headers_new k [] h _ = refl
lookup-set_headers_new k ((j, v) ∷ kvs) h (new, rest) =
    lookup-set_headers_new k kvs (insert (canonical j) v h) rest
    ∙ ground (arith, lookup-insert (canonical j) k v h, text_eq_iff (canonical j) k)

-- Membership of a pair in a map, as data.
abbrev pub Holds : Text → Text → Dict Text → Type 0
Holds k v [] = ⊥
Holds k v ((j, w) ∷ m) = ((j ≡ k) × (w ≡ v)) ⊎ Holds k v m

pub lookup-set_headers :
    (k v : Text) (kvs h : Dict Text)
    → HasDistinctKeys kvs
    → Holds k v kvs
    → lookup (canonical k) (set_headers kvs h) ≡ some v
unfolding set_headers set_header
lookup-set_headers k v [] h _ m = absurd m
lookup-set_headers k v ((j, w) ∷ kvs) h (new, distinct) (inl (same_key, same_value)) =
    rw (← same_key, ← same_value)
      (lookup-set_headers_new (canonical j) kvs (insert (canonical j) w h) new
        ∙ ground (arith, lookup-insert (canonical j) (canonical j) w h, text_eq_refl (canonical j)))
lookup-set_headers k v ((j, w) ∷ kvs) h (new, distinct) (inr m) =
    lookup-set_headers k v kvs (insert (canonical j) w h) distinct m

fix_case-token : (b : Bool) (c : ℕ) → is_token c ≡ true → is_token (fix_case b c) ≡ true
unfolding fix_case
fix_case-token true c h = elim (Bool-cases (is_lower c)) [
  | inl low ↦ rw low (unfold is_token in ground arith)
  | inr other ↦ rw other h
]
fix_case-token false c h = elim (Bool-cases (is_upper c)) [
  | inl up ↦ rw up (unfold is_token in ground arith)
  | inr other ↦ rw other h
]

fix_case_twice : (b : Bool) (c : ℕ) → fix_case b (fix_case b c) ≡ fix_case b c
unfolding fix_case
fix_case_twice true c = ground arith
fix_case_twice false c = ground arith

recase-token : (b : Bool) (s : Text) → all_token s ≡ true → all_token (recase b s) ≡ true
unfolding all_token recase
recase-token b [] h = refl
recase-token b (c ∷ s) h = ground (arith, fix_case-token b c, recase-token (fix_case b c == b'-') s)

recase-recase : (b : Bool) (s : Text) → recase b (recase b s) ≡ recase b s
unfolding recase
recase-recase b [] = refl
recase-recase b (c ∷ s) = rw fix_case_twice (rw (recase-recase (fix_case b c == b'-') s))

-- A canonical key is its own canonical spelling.
pub canonical_idempotent : (k : Text) → canonical (canonical k) ≡ canonical k
unfolding canonical
canonical_idempotent k = ground (arith, recase-token true k, recase-recase true k)
