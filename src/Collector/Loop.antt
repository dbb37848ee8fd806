-- ===== src/Collector/Loop.antt =====
-- cmd/top/main.go: a loop whose body may return an error, and what any such loop keeps.
pub mod Outcome
use knative_benchmark.Prelude.{List, [], ◌∷◌, Option, none, some, ◌≡◌, refl}

-- The rest of a loop follows a round that returned no error.
unfoldable pub go_on : {S E : Type 0} → (S → Option E × S) → Option E × S → Option E × S
go_on rest (none, s) = rest s
go_on rest (some e, s) = (some e, s)

unfoldable pub for_each : {A S E : Type 0} → (A → S → Option E × S) → List A → S → Option E × S
unfolding go_on
for_each body [] s = (none, s)
for_each body (x ∷ xs) s = go_on (for_each body xs) (body x s)

-- A relation between the states before and after, which holds where nothing happens and is passed
-- on from step to step, holds for the loop if it holds for each round.
module _ {S E : Type 0} (R : S → S → Type 0) (same : (s : S) → R s s)
    (chain : (s t u : S) → R s t → R t u → R s u) where
  pub go_on-R :
      (rest : S → Option E × S) (s : S) (r : Option E × S)
      → R s r.1
      → ((t : S) → R t (rest t).1)
      → R s (go_on rest r).1
  unfolding go_on
  go_on-R rest s (none, t) h k = chain s t (rest t).1 h (k t)
  go_on-R rest s (some e, t) h k = h

  pub for_each-R :
      {A : Type 0} (body : A → S → Option E × S)
      → ((x : A) (s : S) → R s (body x s).1)
      → (xs : List A) (s : S) → R s (for_each body xs s).1
  unfolding for_each
  for_each-R body h [] s = same s
  for_each-R body h (x ∷ xs) s =
      go_on-R (for_each body xs) s (body x s) (h x s) (for_each-R body h xs)

pub go_on-none :
    {S E : Type 0} (rest : S → Option E × S) (r : Option E × S)
    → r.0 ≡ none
    → go_on rest r ≡ rest r.1
unfolding go_on
go_on-none rest (none, s) h = refl
go_on-none rest (some e, s) h = cc

pub go_on-some :
    {S E : Type 0} (rest : S → Option E × S) (r : Option E × S) (e : E)
    → r.0 ≡ some e
    → go_on rest r ≡ r
unfolding go_on
go_on-some rest (none, s) e h = cc
go_on-some rest (some e', s) e h = refl

-- A loop without an error made no round with one.
pub go_on-done :
    {S E : Type 0} (rest : S → Option E × S) (r : Option E × S)
    → (go_on rest r).0 ≡ none
    → (r.0 ≡ none) × ((rest r.1).0 ≡ none)
unfolding go_on
go_on-done rest (none, s) h = (refl, h)
go_on-done rest (some e, s) h = cc
