-- ===== src/LogParser/Request/Laws.antt =====
-- cmd/logparser/main.go: `parseRequest` on the lines of a structured log.
use knative_benchmark.Prelude.{
  All-append, ◌≡◌, ◌≢◌, refl, ap, ◌∙◌, false, List, [], ◌∷◌, ◌++◌, append_assoc, Option, ◌==◌, Text,
  codes, text_eq, All, Lacks, ℤ, arith,
}
use knative_benchmark.LogParser.Pairs.{quote, backslash}
use knative_benchmark.LogParser.Pairs.Values.{
  Value, plain, quoted, escaped, value_text, Attr, IsAttr, line_text,
}
use knative_benchmark.LogParser.Pairs.Laws.{HasDistinctKeys, Holds, parse_key_value_pairs-line_text}
use knative_benchmark.LogParser.Request.{
  remove_escaped, trim_left, trim_right, to_lower, clean_cold, parse_request,
}

-- The text inside the quotes of a value.
abbrev pub inner_text : Value → Text
inner_text (plain v) = v
inner_text (quoted v) = v
inner_text (escaped v) = v

remove_escaped-Lacks : (v : Text) → Lacks backslash v → remove_escaped v ≡ v
unfolding remove_escaped
remove_escaped-Lacks [] _ = refl
remove_escaped-Lacks (c ∷ []) _ = refl
remove_escaped-Lacks (c ∷ d ∷ v) (h, hs) = ground (arith, remove_escaped-Lacks (d ∷ v) hs)

-- An escaped quote behind a text is removed.
remove_escaped-append :
    (v rest : Text)
    → Lacks backslash v
    → remove_escaped (v ++ backslash ∷ quote ∷ rest) ≡ v ++ remove_escaped rest
unfolding remove_escaped
remove_escaped-append [] rest _ = ground arith
remove_escaped-append (c ∷ []) rest (h, hs) = ground (arith, remove_escaped-append [] rest tt)
remove_escaped-append (c ∷ d ∷ v) rest (h, hs) =
    ground (arith, remove_escaped-append (d ∷ v) rest hs)

trim_left-Lacks : (v : Text) → Lacks quote v → trim_left v ≡ v
unfolding trim_left
trim_left-Lacks [] _ = refl
trim_left-Lacks (c ∷ v) (h, hs) = ground arith

trim_right-Lacks : (v : Text) → Lacks quote v → trim_right v ≡ v
unfolding trim_right
trim_right-Lacks [] _ = refl
trim_right-Lacks (c ∷ v) (h, hs) = ground (arith, trim_right-Lacks v hs)

trim_right-quote : (v : Text) → Lacks quote v → trim_right (v ++ quote ∷ []) ≡ v
unfolding trim_right
trim_right-quote [] _ = refl
trim_right-quote (c ∷ v) (h, hs) = ground (arith, trim_right-quote v hs)

trim_quotes : (v : Text) → Lacks quote v → trim_right (trim_left (quote ∷ (v ++ quote ∷ []))) ≡ v
unfolding trim_left
trim_quotes [] _ = unfold trim_right in refl
trim_quotes (c ∷ v) (h, hs) =
    let other : (c == quote) ≡ false = ground arith in rw other (trim_right-quote (c ∷ v) (h, hs))

quoted-Lacks : (v : Text) → Lacks backslash v → Lacks backslash (quote ∷ (v ++ quote ∷ []))
quoted-Lacks v h = (omega arith, All-append (λ c. c ≢ backslash) v (quote ∷ []) h (omega arith))

remove_escaped-escaped :
    (v : Text)
    → Lacks backslash v
    → remove_escaped (value_text (escaped v)) ≡ quote ∷ (v ++ quote ∷ [])
unfolding remove_escaped
remove_escaped-escaped v h =
    rw (append_assoc v (backslash ∷ []) (quote ∷ quote ∷ []))
      (rw (remove_escaped-append v (quote ∷ []) h) refl)

-- A text without quotes and backslashes.
abbrev pub IsClean : Text → Type 0
IsClean v = Lacks quote v × Lacks backslash v

-- Whatever the quotes around it, the text inside a value is what is cleaned.
pub clean_cold-value_text :
    (v : Value) → IsClean (inner_text v) → clean_cold (value_text v) ≡ to_lower (inner_text v)
unfolding clean_cold
clean_cold-value_text (plain v) (hq, hb) =
    rw (remove_escaped-Lacks v hb, trim_left-Lacks v hq, trim_right-Lacks v hq) refl
clean_cold-value_text (quoted v) (hq, hb) =
    rw (remove_escaped-Lacks (quote ∷ (v ++ quote ∷ [])) (quoted-Lacks v hb))
      (ap to_lower (trim_quotes v hq))
clean_cold-value_text (escaped v) (hq, hb) =
    ap (λ r. to_lower (trim_right (trim_left r))) (remove_escaped-escaped v hb)
    ∙ ap to_lower (trim_quotes v hq)

-- Of a line of well-formed attributes with different keys, in which the text of the attribute
-- `isCold` has no quotes and no backslashes, the cold flag is set just when that text is `true` in
-- letters of any case, whether it is plain, quoted, or quoted within escaped quotes.
pub parse_request-is_cold :
    {T : Type 0} (parse_time : Text → Option T) (zero_time : T) (parse_duration : Text → Option ℤ)
    (v : Value) (as' : List Attr)
    → All IsAttr as'
    → HasDistinctKeys as'
    → Holds (codes "isCold", v) as'
    → IsClean (inner_text v)
    → (parse_request parse_time zero_time parse_duration (line_text as')).is_cold
      ≡ text_eq (to_lower (inner_text v)) (codes "true")
unfolding parse_request
parse_request-is_cold parse_time zero_time parse_duration v as' h distinct held clean =
    rw
      (
        parse_key_value_pairs-line_text (codes "isCold") v as' h distinct held,
        clean_cold-value_text v clean,
      )
      refl
