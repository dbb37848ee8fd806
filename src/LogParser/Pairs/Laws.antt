-- ===== src/LogParser/Pairs/Laws.antt =====
-- cmd/logparser/main.go: `parseKeyValuePairs` on the lines of a structured log.
use knative_benchmark.Prelude.{
  ℕ, zero, suc, ◌≤◌, ◌<◌, ◌≡◌, ◌≢◌, refl, ap, ◌∙◌, List, [], ◌∷◌, ◌++◌, append_assoc, none, some,
  Text, Dict, insert, lookup, lookup-insert, length, length-append, map, text_eq_iff, text_eq_refl,
  All, arith, ◌⊎◌, inl, inr,
}
use knative_benchmark.LogParser.Pairs.Values.{
  Value, value_text, IsKey, Attr, IsAttr, attr_text, tail_text, line_text, pair_of, Stops,
  span-append, tail_text-Stops, value_at-value_text,
}
use knative_benchmark.LogParser.Pairs.{
  is_word, is_plain, span, go_on, value_at, keyed, key_end, match_at, find_all, collect,
  parse_key_value_pairs,
}

match_at-key : (k s : Text) → IsKey k → match_at (k ++ b'=' ∷ s) ≡ keyed k (value_at s)
unfolding match_at key_end
match_at-key [] s (h, _) = absurd (h refl)
match_at-key (c ∷ k) s (_, hs) = rw (span-append is_word (c ∷ k) (b'=' ∷ s) hs refl) refl

match_at-attr_text :
    (a : Attr) (rest : Text)
    → IsAttr a
    → Stops is_plain rest
    → match_at (attr_text a ++ rest) ≡ some (pair_of a, rest)
match_at-attr_text (k, v) rest (hk, hv) stops =
    rw (append_assoc k (b'=' ∷ value_text v) rest)
      (rw (match_at-key k (value_text v ++ rest) hk, value_at-value_text v rest hv stops) refl)

find_all-attr :
    (f : ℕ) (a : Attr) (rest : Text)
    → IsAttr a
    → Stops is_plain rest
    → find_all (suc f) (attr_text a ++ rest) ≡ pair_of a ∷ find_all f rest
find_all-attr f (c ∷ k, v) rest h stops =
    let s = (k ++ b'=' ∷ value_text v) ++ rest in
    unfold find_all in ap (go_on (find_all f) s) (match_at-attr_text (c ∷ k, v) rest h stops)
find_all-attr f ([], v) rest h stops = absurd (h.0.0 refl)

match_at-space : (s : Text) → match_at (b' ' ∷ s) ≡ none
unfolding match_at key_end span
match_at-space s = refl

find_all-space : (f : ℕ) (s : Text) → find_all (suc f) (b' ' ∷ s) ≡ find_all f s
unfolding find_all
find_all-space f s = ap (go_on (find_all f) s) (match_at-space s)

length-attr_text : (a : Attr) → IsAttr a → 1 ≤ length (attr_text a)
length-attr_text (k, v) h = omega (arith, length-append k (b'=' ∷ value_text v))

find_all-tail_text :
    (f : ℕ) (as' : List Attr)
    → length (tail_text as') < f
    → All IsAttr as'
    → find_all f (tail_text as') ≡ map pair_of as'
find_all-tail_text zero as' h _ = absurd (omega arith)
find_all-tail_text (suc f) [] h _ = unfold find_all in refl
find_all-tail_text (suc zero) (a ∷ as') h _ = absurd (omega arith)
find_all-tail_text (suc (suc f)) (a ∷ as') h (ha, has) =
    let shorter : length (tail_text as') < f =
      omega (arith, length-append (attr_text a) (tail_text as'), length-attr_text a ha) in
    find_all-space (suc f) (attr_text a ++ tail_text as')
    ∙ find_all-attr f a (tail_text as') ha (tail_text-Stops as')
    ∙ ap (λ r. pair_of a ∷ r) (find_all-tail_text f as' shorter has)

-- Every attribute of a line is found, in order, when the line is searched with fuel above its length.
pub find_all-line_text :
    (f : ℕ) (as' : List Attr)
    → length (line_text as') < f
    → All IsAttr as'
    → find_all f (line_text as') ≡ map pair_of as'
find_all-line_text zero as' h _ = absurd (omega arith)
find_all-line_text (suc f) [] h _ = unfold find_all in refl
find_all-line_text (suc f) (a ∷ as') h (ha, has) =
    let shorter : length (tail_text as') < f =
      omega (arith, length-append (attr_text a) (tail_text as'), length-attr_text a ha) in
    find_all-attr f a (tail_text as') ha (tail_text-Stops as')
    ∙ ap (λ r. pair_of a ∷ r) (find_all-tail_text f as' shorter has)

-- The keys differ.
abbrev pub IsUnused : Text → List Attr → Type 0
IsUnused k = All (λ a. a.0 ≢ k)

abbrev pub HasDistinctKeys : List Attr → Type 0
HasDistinctKeys [] = Unit
HasDistinctKeys ((k, v) ∷ as') = IsUnused k as' × HasDistinctKeys as'

abbrev pub Holds : Attr → List Attr → Type 0
Holds a [] = ⊥
Holds a (b ∷ as') = (b ≡ a) ⊎ Holds a as'

collect-IsUnused :
    (k : Text) (as' : List Attr) (m : Dict Text)
    → IsUnused k as'
    → lookup k (collect (map pair_of as') m) ≡ lookup k m
unfolding collect
collect-IsUnused k [] m _ = refl
collect-IsUnused k ((j, v) ∷ as') m (h, hs) =
    collect-IsUnused k as' (insert j (value_text v) m) hs
    ∙ ground (arith, lookup-insert j k (value_text v) m, text_eq_iff j k)

collect-Holds :
    (k : Text) (v : Value) (as' : List Attr) (m : Dict Text)
    → HasDistinctKeys as'
    → Holds (k, v) as'
    → lookup k (collect (map pair_of as') m) ≡ some (value_text v)
unfolding collect
collect-Holds k v [] m _ held = absurd held
collect-Holds k v ((j, w) ∷ as') m (new, distinct) (inl same) =
    let same_key : j ≡ k = ap (λ (a : Attr). a.0) same in
    let same_value : w ≡ v = ap (λ (a : Attr). a.1) same in
    rw (← same_key, ← same_value)
      (collect-IsUnused j as' (insert j (value_text w) m) new
        ∙ ground (arith, lookup-insert j j (value_text w) m, text_eq_refl j))
collect-Holds k v ((j, w) ∷ as') m (new, distinct) (inr held) =
    collect-Holds k v as' (insert j (value_text w) m) distinct held

-- Of a line that holds attributes with different keys, separated by one space, whose keys are words
-- and whose values are plain, quoted, or quoted with an inner text in escaped quotes, every key is
-- read with its value, quotes included; a value has no quotes inside, a plain one no space and at
-- least one byte, and a quoted one does not begin with a backslash.
pub parse_key_value_pairs-line_text :
    (k : Text) (v : Value) (as' : List Attr)
    → All IsAttr as'
    → HasDistinctKeys as'
    → Holds (k, v) as'
    → lookup k (parse_key_value_pairs (line_text as')) ≡ some (value_text v)
unfolding parse_key_value_pairs
parse_key_value_pairs-line_text k v as' h distinct held =
    rw (find_all-line_text (suc (length (line_text as'))) as' (omega arith) h)
      (collect-Holds k v as' [] distinct held)
