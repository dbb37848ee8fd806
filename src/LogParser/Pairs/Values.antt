-- ===== src/LogParser/Pairs/Values.antt =====
-- cmd/logparser/main.go: the values of attributes under the regular expression.
use knative_benchmark.Prelude.{
  ℕ, ◌≡◌, ◌≢◌, refl, ap, ◌∙◌, Bool, true, false, not, List, [], ◌∷◌, ◌++◌, append_assoc, none, some,
  ◌==◌, Text, All, Lacks, arith, inl, inr, Bool-cases,
}
use knative_benchmark.LogParser.Pairs.{
  quote, backslash, is_word, is_plain, span, ends_in_backslash, escaped_end, escaped_inner,
  escaped_value, quoted_end, quoted_value, or_else, non_empty, value_at, Pair,
}

-- The forms of a value in a line: as it is; in quotes; and a text that itself is in quotes, with
-- those escaped, in quotes.
pub data Value : Type 0 where
  plain quoted escaped : Text → Value

abbrev pub value_text : Value → Text
value_text (plain v) = v
value_text (quoted v) = quote ∷ (v ++ quote ∷ [])
value_text (escaped v) = quote ∷ backslash ∷ quote ∷ ((v ++ backslash ∷ []) ++ quote ∷ quote ∷ [])

abbrev pub NoBackslash : Text → Type 0
NoBackslash [] = Unit
NoBackslash (c ∷ s) = c ≢ backslash

-- A plain value is not empty and has no space and no quote; the others have no quote inside, and a
-- quoted one does not begin with a backslash.
abbrev pub IsValue : Value → Type 0
IsValue (plain v) = (v ≢ []) × All (λ c. is_plain c ≡ true) v
IsValue (quoted v) = Lacks quote v × NoBackslash v
IsValue (escaped v) = Lacks quote v

abbrev pub IsKey : Text → Type 0
IsKey k = (k ≢ []) × All (λ c. is_word c ≡ true) k

-- An attribute `key=value` of a line.
abbrev pub Attr : Type 0
Attr = Text × Value

abbrev pub IsAttr : Attr → Type 0
IsAttr (k, v) = IsKey k × IsValue v

abbrev pub attr_text : Attr → Text
attr_text (k, v) = k ++ b'=' ∷ value_text v

abbrev pub tail_text : List Attr → Text
tail_text [] = []
tail_text (a ∷ as') = b' ' ∷ (attr_text a ++ tail_text as')

-- The line of a list of attributes, with one space between them.
abbrev pub line_text : List Attr → Text
line_text [] = []
line_text (a ∷ as') = attr_text a ++ tail_text as'

abbrev pub pair_of : Attr → Pair
pair_of (k, v) = record { key = k; value = value_text v }

abbrev pub Stops : (ℕ → Bool) → Text → Type 0
Stops p [] = Unit
Stops p (c ∷ s) = p c ≡ false

pub span-append :
    (p : ℕ → Bool) (run rest : Text)
    → All (λ c. p c ≡ true) run
    → Stops p rest
    → span p (run ++ rest) ≡ (run, rest)
unfolding span
span-append p [] [] _ _ = refl
span-append p [] (c ∷ rest) _ stops = rw stops refl
span-append p (c ∷ run) rest (h, hs) stops = rw (h, span-append p run rest hs stops) refl

no_quote : (v : Text) → Lacks quote v → All (λ c. not (c == quote) ≡ true) v
no_quote [] _ = tt
no_quote (c ∷ v) (h, hs) = (ground arith, no_quote v hs)

ends_in_backslash-append : (v : Text) → ends_in_backslash (v ++ backslash ∷ []) ≡ true
ends_in_backslash-append [] = refl
ends_in_backslash-append (c ∷ []) = refl
ends_in_backslash-append (c ∷ d ∷ v) = ends_in_backslash-append (d ∷ v)

Lacks-append_backslash : (v : Text) → Lacks quote v → Lacks quote (v ++ backslash ∷ [])
Lacks-append_backslash [] _ = omega arith
Lacks-append_backslash (c ∷ v) (h, hs) = (h, Lacks-append_backslash v hs)

escaped_value-nil :
    (v rest : Text) → Lacks quote v → NoBackslash v → escaped_value (v ++ quote ∷ rest) ≡ none
unfolding escaped_value span escaped_inner
escaped_value-nil [] rest _ _ = refl
escaped_value-nil (c ∷ v) rest h n = ground arith

-- What follows an attribute: nothing, or a space.
pub tail_text-Stops : (as' : List Attr) → Stops is_plain (tail_text as')
tail_text-Stops [] = tt
tail_text-Stops (a ∷ as') = refl

value_at-quoted :
    (v rest : Text)
    → Lacks quote v
    → NoBackslash v
    → value_at (quote ∷ (v ++ quote ∷ rest)) ≡ some (value_text (quoted v), rest)
unfolding value_at quoted_value quoted_end or_else
value_at-quoted v rest h n =
    rw
      (
        escaped_value-nil v rest h n,
        span-append (λ c. not (c == quote)) v (quote ∷ rest) (no_quote v h) refl,
      )
      refl

value_at-escaped :
    (v rest : Text)
    → Lacks quote v
    → value_at (quote ∷ backslash ∷ quote ∷ ((v ++ backslash ∷ []) ++ quote ∷ quote ∷ rest))
      ≡ some (value_text (escaped v), rest)
unfolding value_at escaped_value escaped_inner escaped_end or_else
value_at-escaped v rest h =
    rw
      (
        span-append (λ c. not (c == quote)) (v ++ backslash ∷ []) (quote ∷ quote ∷ rest)
            (no_quote (v ++ backslash ∷ []) (Lacks-append_backslash v h)) refl,
        ends_in_backslash-append v,
      )
      refl

plain_no_quote : (c : ℕ) → is_plain c ≡ true → (c == quote) ≡ false
plain_no_quote c h = elim (Bool-cases (c == quote)) [ inl e ↦ cc (rw e at h) | inr e ↦ e ]

value_at-plain :
    (v rest : Text)
    → v ≢ []
    → All (λ c. is_plain c ≡ true) v
    → Stops is_plain rest
    → value_at (v ++ rest) ≡ some (v, rest)
unfolding value_at
value_at-plain [] rest h _ _ = absurd (h refl)
value_at-plain (c ∷ v) rest _ h stops =
    let unquoted : (c == quote) ≡ false = plain_no_quote c h.0 in
    let form : value_at ((c ∷ v) ++ rest) ≡ non_empty (span is_plain ((c ∷ v) ++ rest)) =
      rw unquoted refl in
    form ∙ ap non_empty (span-append is_plain (c ∷ v) rest h stops)

-- The value of an attribute is found, and what follows it is left.
pub value_at-value_text :
    (v : Value) (rest : Text)
    → IsValue v
    → Stops is_plain rest
    → value_at (value_text v ++ rest) ≡ some (value_text v, rest)
value_at-value_text (plain v) rest (h, hs) stops = value_at-plain v rest h hs stops
value_at-value_text (quoted v) rest (h, n) stops =
    rw (append_assoc v (quote ∷ []) rest) (value_at-quoted v rest h n)
value_at-value_text (escaped v) rest h stops =
    rw (append_assoc (v ++ backslash ∷ []) (quote ∷ quote ∷ []) rest) (value_at-escaped v rest h)
