-- ===== src/LogLine/Values.antt =====
-- pkg/generator/generator.go: the texts that slog writes, as values that cmd/logparser/main.go reads.
use knative_benchmark.Prelude.{
  ℕ, ◌≤◌, ◌≡◌, ◌≢◌, refl, ap, true, false, List, [], ◌∷◌, ◌++◌, append_assoc, Text, All, Lacks,
  arith, inl, inr, Bool-cases, if◌then◌else◌, map,
}
use knative_benchmark.Decimal.{decimal}
use knative_benchmark.Decimal.Laws.{Digits, decimal-Digits, decimal-ne-nil}
use knative_benchmark.LogParser.Pairs.{quote, backslash, is_plain}
use knative_benchmark.LogParser.Pairs.Values.{
  Value, plain, quoted, escaped, value_text, NoBackslash, IsValue, Attr, attr_text, tail_text,
  line_text,
}
use knative_benchmark.LogLine.{
  has_special, needs_quoting, escape, string_value, attribute, more_attributes, attributes,
}

-- A printable ASCII byte, but no quote and no backslash.
abbrev pub IsSimple : ℕ → Type 0
IsSimple c = (32 ≤ c) × (c ≤ 126) × (c ≢ quote) × (c ≢ backslash)

-- A text of such bytes.
abbrev pub IsText : Text → Type 0
IsText = All IsSimple

-- A text that is written without quotes and read as it is.
abbrev pub IsPlain : Text → Type 0
IsPlain v = IsValue (plain v)

-- The body of a response: a text, or a text in quotes, the forms of JSON.
pub data Body : Type 0 where
  bare in_quotes : Text → Body

abbrev pub body_text : Body → Text
body_text (bare v) = v
body_text (in_quotes v) = quote ∷ (v ++ quote ∷ [])

abbrev pub inner : Body → Text
inner (bare v) = v
inner (in_quotes v) = v

abbrev pub form : Text → Value
form v = if needs_quoting v then quoted v else plain v

abbrev pub body_form : Body → Value
body_form (bare v) = form v
body_form (in_quotes v) = escaped v

pub IsText-no_quote : (v : Text) → IsText v → Lacks quote v
IsText-no_quote [] _ = tt
IsText-no_quote (c ∷ v) (h, hs) = (ground arith, IsText-no_quote v hs)

pub IsText-no_backslash : (v : Text) → IsText v → Lacks backslash v
IsText-no_backslash [] _ = tt
IsText-no_backslash (c ∷ v) (h, hs) = (ground arith, IsText-no_backslash v hs)

IsText-NoBackslash : (v : Text) → IsText v → NoBackslash v
IsText-NoBackslash [] _ = tt
IsText-NoBackslash (c ∷ v) (h, hs) = ground arith

escape-IsText : (v rest : Text) → IsText v → escape (v ++ rest) ≡ v ++ escape rest
unfolding escape
escape-IsText [] rest _ = refl
escape-IsText (c ∷ v) rest (h, hs) = ground (arith, escape-IsText v rest hs)

escape-same : (v : Text) → IsText v → escape v ≡ v
unfolding escape
escape-same [] _ = refl
escape-same (c ∷ v) (h, hs) = ground (arith, escape-same v hs)

has_special-plain : (v : Text) → IsText v → has_special v ≡ false → All (λ c. is_plain c ≡ true) v
unfolding has_special
has_special-plain [] _ _ = tt
has_special-plain (c ∷ v) (h, hs) e = (ground arith, has_special-plain v hs (ground arith))

needs_quoting-IsPlain : (v : Text) → IsText v → needs_quoting v ≡ false → IsPlain v
unfolding needs_quoting
needs_quoting-IsPlain [] h e = cc
needs_quoting-IsPlain (c ∷ v) h e = (λ e'. cc, has_special-plain (c ∷ v) h e)

-- A text is read as it is written.
pub string_value-form : (v : Text) → IsText v → string_value v ≡ value_text (form v)
unfolding string_value
string_value-form v h = elim (Bool-cases (needs_quoting v)) [
  | inl e ↦ rw e (rw (escape-same v h) refl)
  | inr e ↦ rw e refl
]

pub form-IsValue : (v : Text) → IsText v → IsValue (form v)
form-IsValue v h = elim (Bool-cases (needs_quoting v)) [
  | inl e ↦ rw e (IsText-no_quote v h, IsText-NoBackslash v h)
  | inr e ↦ rw e (needs_quoting-IsPlain v h e)
]

pub string_value-body_form :
    (b : Body) → IsText (inner b) → string_value (body_text b) ≡ value_text (body_form b)
unfolding string_value needs_quoting has_special escape
string_value-body_form (bare v) h = string_value-form v h
string_value-body_form (in_quotes v) h = rw (escape-IsText v (quote ∷ []) h) (
    rw
      (
        append_assoc v (backslash ∷ quote ∷ []) (quote ∷ []),
        append_assoc v (backslash ∷ []) (quote ∷ quote ∷ []),
      )
      refl)

pub body_form-IsValue : (b : Body) → IsText (inner b) → IsValue (body_form b)
body_form-IsValue (bare v) h = form-IsValue v h
body_form-IsValue (in_quotes v) h = IsText-no_quote v h

is_plain-digit : (s : Text) → Digits s → All (λ c. is_plain c ≡ true) s
is_plain-digit [] _ = tt
is_plain-digit (c ∷ s) (h, hs) = (ground arith, is_plain-digit s hs)

pub decimal-IsPlain : (n : ℕ) → IsPlain (decimal n)
decimal-IsPlain n = (decimal-ne-nil n, is_plain-digit (decimal n) (decimal-Digits n))

abbrev pub written : Attr → Text × Text
written (k, v) = (k, value_text v)

more_attributes-tail_text : (as' : List Attr) → more_attributes (map written as') ≡ tail_text as'
unfolding more_attributes attribute
more_attributes-tail_text [] = refl
more_attributes-tail_text (a ∷ as') =
    ap (λ r. b' ' ∷ (attr_text a ++ r)) (more_attributes-tail_text as')

-- Attributes are written as the log parser expects them.
pub attributes-line_text : (as' : List Attr) → attributes (map written as') ≡ line_text as'
unfolding attributes attribute
attributes-line_text [] = refl
attributes-line_text (a ∷ as') = ap (λ r. attr_text a ++ r) (more_attributes-tail_text as')
