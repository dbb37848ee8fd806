-- ===== src/Collector/Loop/Outcome.antt =====
-- cmd/top/main.go: what a loop has added to a state when it ends, with an error or without.
use knative_benchmark.Prelude.{
  ℕ, zero, suc, ◌+◌, ◌≤◌, ◌<◌, ◌≡◌, ◌≢◌, refl, ap, List, [], ◌∷◌, ◌++◌, length, length-append, take,
  Option, none, some, Option-cases, arith, ◌⊎◌, inl, inr,
}
use knative_benchmark.Collector.Loop.{go_on, for_each, go_on-none, go_on-some}

take_within : {M : Type 0} (k : ℕ) (xs ys : List M) → k ≤ length xs → take k (xs ++ ys) ≡ take k xs
take_within zero xs ys h = refl
take_within (suc k) [] ys h = absurd (omega arith)
take_within (suc k) (x ∷ xs) ys h = ap (λ r. x ∷ r) (take_within k xs ys (omega arith))

take_beyond :
    {M : Type 0} (n k : ℕ) (xs ys : List M)
    → n ≡ length xs + k
    → take n (xs ++ ys) ≡ xs ++ take k ys
take_beyond n k [] ys e = let same : n ≡ k = omega arith in rw same refl
take_beyond zero k (x ∷ xs) ys e = absurd (omega arith)
take_beyond (suc n) k (x ∷ xs) ys e = ap (λ r. x ∷ r) (take_beyond n k xs ys (omega arith))

-- A plan is what is to be added, and the error with which it ends, if it does. The second follows the
-- first, unless that ends with an error.
abbrev pub Plan : Type 0 → Type 0 → Type 0
Plan E M = List M × Option E

abbrev pub then_plan : {E M : Type 0} → Plan E M → Plan E M → Plan E M
then_plan (ms, none) (ns, e) = (ms ++ ns, e)
then_plan (ms, some e) q = (ms, some e)

-- The plans of the elements, one after the other.
abbrev pub planned : {A E M : Type 0} → (A → Plan E M) → List A → Plan E M
planned plan [] = ([], none)
planned plan (x ∷ xs) = then_plan (plan x) (planned plan xs)

-- `Added ms s t`: from `s` to `t` just `ms` were added.
module _ {S E M : Type 0} (Added : List M → S → S → Type 0) where
  -- All of the plan was added, and its error is returned, or none; or an error came after some first
  -- ones of the plan, but not after all of them.
  abbrev pub Outcome : Plan E M → S → Option E × S → Type 0
  Outcome p s r =
      ((r.0 ≡ p.1) × Added p.0 s r.1)
      ⊎ ((r.0 ≢ none) × (k : ℕ) × (k < length p.0) × Added (take k p.0) s r.1)

  module _ (nothing_added : (s : S) → Added [] s s)
      (chain : (ms ns : List M) (s t u : S)
        → Added ms s t
        → Added ns t u
        → Added (ms ++ ns) s u) where
    pub go_on-Outcome :
        (p q : Plan E M) (rest : S → Option E × S) (s : S) (r : Option E × S)
        → Outcome p s r
        → ((t : S) → Outcome q t (rest t))
        → Outcome (then_plan p q) s (go_on rest r)
    go_on-Outcome (ms, none) (ns, e) rest s r (inl (fine, added)) h =
        rw (go_on-none rest r fine) (elim (h r.1) [
          | inl (done, more) ↦ inl (done, chain ms ns s r.1 _ added more)
          | inr (failed, k, few, more) ↦ inr (
            failed,
            length ms + k,
            omega (arith, length-append ms ns),
            rw (take_beyond (length ms + k) k ms ns refl) (chain ms (take k ns) s r.1 _ added more),
          )
        ])
    go_on-Outcome (ms, none) (ns, e) rest s r (inr (failed, k, few, added)) h =
        elim (Option-cases r.0) [
          | inl fine ↦ absurd (failed fine)
          | inr (e', fails) ↦ rw (go_on-some rest r e' fails) (
              inr (
                failed,
                k,
                omega (arith, length-append ms ns),
                rw (take_within k ms ns (omega arith)) added,
              ))
        ]
    go_on-Outcome (ms, some e) q rest s r (inl (fails, added)) h =
        rw (go_on-some rest r e fails) (inl (fails, added))
    go_on-Outcome (ms, some e) q rest s r (inr (failed, k, few, added)) h =
        elim (Option-cases r.0) [
          | inl fine ↦ absurd (failed fine)
          | inr (e', fails) ↦ rw (go_on-some rest r e' fails) (inr (failed, k, few, added))
        ]

    pub for_each-Outcome :
        {A : Type 0} (body : A → S → Option E × S) (plan : A → Plan E M)
        → ((x : A) (t : S) → Outcome (plan x) t (body x t))
        → (xs : List A) (s : S) → Outcome (planned plan xs) s (for_each body xs s)
    unfolding for_each
    for_each-Outcome body plan h [] s = inl (refl, nothing_added s)
    for_each-Outcome body plan h (x ∷ xs) s =
        go_on-Outcome (plan x) (planned plan xs) (for_each body xs) s (body x s) (h x s)
          (for_each-Outcome body plan h xs)
