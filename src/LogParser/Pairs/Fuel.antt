-- ===== src/LogParser/Pairs/Fuel.antt =====
-- cmd/logparser/main.go, `parseKeyValuePairs`: the length of a line and 1 is enough fuel for its search.
use knative_benchmark.Prelude.{
  ℕ, zero, suc, ◌+◌, ◌≤◌, ◌<◌, ◌≡◌, ◌↔◌, refl, ap, Bool, true, false, not, List, [], ◌∷◌, Option,
  none, some, ◌==◌, if◌then◌else◌, Text, length, arith, inl, inr, Option-cases,
}
use knative_benchmark.LogParser.Pairs.{
  quote, backslash, is_word, is_plain, span, escaped_end, escaped_inner, escaped_value, quoted_end,
  quoted_value, or_else, non_empty, value_at, keyed, key_end, match_at, find_all, Pair,
}

length-span : (p : ℕ → Bool) (s : Text) → length (span p s).0 + length (span p s).1 ≡ length s
unfolding span
length-span p [] = refl
length-span p (c ∷ s) = ground (arith, length-span p s)

-- What is left behind a match, if there is one, is shorter than `n`.
Below : {A : Type 0} → ℕ → Option (A × Text) → Type 0
Below n none = Unit
Below n (some (a, rest)) = length rest < n

escaped_end-Below :
    (n : ℕ) (slashes : Text) (r : Text × Text) → length r.1 < n → Below n (escaped_end slashes r)
unfolding escaped_end Below
escaped_end-Below n slashes (inner, []) h = tt
escaped_end-Below n slashes (inner, q ∷ []) h = tt
escaped_end-Below n slashes (inner, q ∷ r ∷ rest) h = ground arith

Below-else :
    {A : Type 0} (n : ℕ) (b : Bool) (o o' : Option (A × Text))
    → Below n o
    → Below n o'
    → Below n (if b then o else o')
Below-else n true o o' h h' = h
Below-else n false o o' h h' = h'

escaped_inner-Below : (n : ℕ) (r : Text × Text) → length r.1 < n → Below n (escaped_inner r)
unfolding escaped_inner Below
escaped_inner-Below n ([], s) h = tt
escaped_inner-Below n (c ∷ slashes, []) h = tt
escaped_inner-Below n (c ∷ slashes, q ∷ s) h =
    let rest = span (λ d. not (d == quote)) s in
    Below-else n (q == quote) (escaped_end (c ∷ slashes) rest) none
      (escaped_end-Below n (c ∷ slashes) rest
        (omega (arith, length-span (λ d. not (d == quote)) s)))
      tt

escaped_value-Below : (n : ℕ) (s : Text) → length s < n → Below n (escaped_value s)
unfolding escaped_value
escaped_value-Below n s h =
    escaped_inner-Below n (span (λ c. c == backslash) s)
      (omega (arith, length-span (λ c. c == backslash) s))

quoted_end-Below : (n : ℕ) (r : Text × Text) → length r.1 < n → Below n (quoted_end r)
unfolding quoted_end Below
quoted_end-Below n (inner, []) h = tt
quoted_end-Below n (inner, q ∷ rest) h = omega arith

quoted_value-Below : (n : ℕ) (s : Text) → length s < n → Below n (quoted_value s)
unfolding quoted_value
quoted_value-Below n s h =
    quoted_end-Below n (span (λ c. not (c == quote)) s)
      (omega (arith, length-span (λ c. not (c == quote)) s))

or_else-Below :
    {A : Type 0} (n : ℕ) (o o' : Option (A × Text))
    → Below n o
    → Below n o'
    → Below n (or_else o o')
unfolding or_else
or_else-Below n none o' h h' = h'
or_else-Below n (some a) o' h h' = h

non_empty-Below : (n : ℕ) (r : Text × Text) → length r.1 < n → Below n (non_empty r)
unfolding Below
non_empty-Below n ([], rest) h = tt
non_empty-Below n (c ∷ run, rest) h = h

value_at-Below : (n : ℕ) (s : Text) → length s < n → Below n (value_at s)
unfolding value_at
value_at-Below n [] h = unfold Below in tt
value_at-Below n (c ∷ s) h =
    Below-else n (c == quote) (or_else (escaped_value s) (quoted_value s))
      (non_empty (span is_plain (c ∷ s)))
      (or_else-Below n (escaped_value s) (quoted_value s) (escaped_value-Below n s (omega arith))
        (quoted_value-Below n s (omega arith)))
      (non_empty-Below n (span is_plain (c ∷ s)) (omega (arith, length-span is_plain (c ∷ s))))

keyed-Below : (n : ℕ) (key : Text) (o : Option (Text × Text)) → Below n o → Below n (keyed key o)
unfolding Below
keyed-Below n key none h = tt
keyed-Below n key (some (v, rest)) h = h

key_end-Below : (n : ℕ) (r : Text × Text) → length r.0 + length r.1 ≤ n → Below n (key_end r)
unfolding key_end
key_end-Below n ([], s) h = unfold Below in tt
key_end-Below n (c ∷ key, []) h = unfold Below in tt
key_end-Below n (c ∷ key, e ∷ s) h =
    Below-else n (e == b'=') (keyed (c ∷ key) (value_at s)) none
      (keyed-Below n (c ∷ key) (value_at s) (value_at-Below n s (omega arith))) (unfold Below in tt)

match_at-Below : (s : Text) → Below (length s) (match_at s)
unfolding match_at
match_at-Below s = key_end-Below (length s) (span is_word s) (omega (arith, length-span is_word s))

-- A match leaves a shorter text.
match_at-shorter : (s rest : Text) (p : Pair) → match_at s ≡ some (p, rest) → length rest < length s
unfolding Below
match_at-shorter s rest p e = let below = match_at-Below s in rw e at below

-- The matches of a text, from its head on: behind a match the search goes on after it, and where there
-- is none, at the next byte.
data Matches : Text → List Pair → Type 0 where
  done : Matches [] []
  found :
      {c : ℕ} {s rest : Text} {p : Pair} {ps : List Pair}
      → match_at (c ∷ s) ≡ some (p, rest)
      → Matches rest ps
      → Matches (c ∷ s) (p ∷ ps)
  skipped :
      {c : ℕ} {s : Text} {ps : List Pair}
      → match_at (c ∷ s) ≡ none
      → Matches s ps
      → Matches (c ∷ s) ps

find_all-Matches_lem : (f : ℕ) (s : Text) → length s < f → Matches s (find_all f s)
unfolding find_all
find_all-Matches_lem zero s h = absurd (omega arith)
find_all-Matches_lem (suc f) [] h = done
find_all-Matches_lem (suc f) (c ∷ s) h = elim (Option-cases (match_at (c ∷ s))) [
  | inl e ↦ rw e (skipped e (find_all-Matches_lem f s (omega arith)))
  | inr ((p, rest), e) ↦
      rw e
        (found e (find_all-Matches_lem f rest (omega (arith, match_at-shorter (c ∷ s) rest p e))))
]

Matches-unique :
    (s : Text) (ps : List Pair) (f : ℕ) → length s < f → Matches s ps → find_all f s ≡ ps
unfolding find_all
Matches-unique s ps zero h m = absurd (omega arith)
Matches-unique _ _ (suc f) h done = refl
Matches-unique _ _ (suc f) h (found {c} {s} {rest} {p} {ps} e m) = rw e (
    ap (λ r. p ∷ r) (Matches-unique rest ps f (omega (arith, match_at-shorter (c ∷ s) rest p e)) m))
Matches-unique _ _ (suc f) h (skipped {c} {s} {ps} e m) =
    rw e (Matches-unique s ps f (omega arith) m)

-- With fuel above the length of a text, whatever the text, the search ends with the matches of the
-- text and with nothing else.
find_all-Matches :
    (f : ℕ) (s : Text) (ps : List Pair) → length s < f → (find_all f s ≡ ps) ↔ Matches s ps
find_all-Matches f s ps h = (λ e. rw (← e) (find_all-Matches_lem f s h), Matches-unique s ps f h)
