-- ===== src/LogLine/Texts.antt =====
-- The parts of a line of pkg/generator/generator.go, read by cmd/logparser/main.go.
use knative_benchmark.Prelude.{
  ℕ, suc, ◌≤◌, ◌≡◌, refl, ap, ◌∙◌, true, List, [], ◌∷◌, ◌++◌, Text, codes, contains, All, arith,
  map, Bool-cases, inl, inr, pos, length,
}
use knative_benchmark.Decimal.{decimal, max_int, atoi_value}
use knative_benchmark.Decimal.Laws.{atoi-decimal}
use knative_benchmark.LogParser.Pairs.{collect, parse_key_value_pairs}
use knative_benchmark.LogParser.Pairs.Values.{escaped, value_text, Attr, IsAttr, line_text, pair_of}
use knative_benchmark.LogParser.Pairs.Laws.{find_all-line_text}
use knative_benchmark.LogParser.Request.{clean_cold, to_lower}
use knative_benchmark.LogParser.Request.Laws.{inner_text, clean_cold-value_text}
use knative_benchmark.LogParser.Process.{is_request_line}
use knative_benchmark.LogLine.{needs_quoting, attributes}
use knative_benchmark.LogLine.Values.{
  Body, bare, in_quotes, IsText-no_quote, IsText-no_backslash, inner, form, body_form, IsText,
  written, attributes-line_text,
}

pub parse_key_value_pairs-attributes :
    (as' : List Attr)
    → All IsAttr as'
    → parse_key_value_pairs (attributes (map written as')) ≡ collect (map pair_of as') []
unfolding parse_key_value_pairs
parse_key_value_pairs-attributes as' h = rw (attributes-line_text as') (
    ap (λ ps. collect ps [])
      (find_all-line_text (suc (length (line_text as'))) as' (omega arith) h))

pub atoi_value-decimal : (n : ℕ) → n ≤ max_int → atoi_value (decimal n) ≡ pos n
unfolding atoi_value
atoi_value-decimal n h = rw (atoi_value, atoi-decimal n h) refl

inner_text-form : (v : Text) → inner_text (form v) ≡ v
inner_text-form v = elim (Bool-cases (needs_quoting v)) [ inl e ↦ rw e refl | inr e ↦ rw e refl ]

pub clean_cold-body_form :
    (b : Body) → IsText (inner b) → clean_cold (value_text (body_form b)) ≡ to_lower (inner b)
clean_cold-body_form (bare v) h =
    clean_cold-value_text (form v)
      (rw (inner_text-form v) (IsText-no_quote v h, IsText-no_backslash v h))
    ∙ ap to_lower (inner_text-form v)
clean_cold-body_form (in_quotes v) h =
    clean_cold-value_text (escaped v) (IsText-no_quote v h, IsText-no_backslash v h)

pub contains-append : (s t x : Text) → contains t x ≡ true → contains (s ++ t) x ≡ true
contains-append [] t x h = h
contains-append (c ∷ s) t x h = ground (arith, contains-append s t x h)

pub is_request_line-contains :
    (s : Text) → contains s (codes "msg=Success") ≡ true → is_request_line s ≡ true
is_request_line-contains s h = rw h refl
