-- ===== src/Prelude/Strings.antt =====
-- Go's `string` as the list of its bytes, and what the program uses of the package `strings`.
use Prim.Native.Nat.{ℕ}
use Prim.Native.Char.{code}
use Prim.Native.String.{String}
use mathlib.Core.Path.{◌≡◌, refl, ap}
use mathlib.Core.Logic.{◌≢◌, ◌↔◌, inl, inr}
use mathlib.Core.Bool.{false≢true, Bool, true, false, ◌&&◌, ◌||◌}
use mathlib.Core.List.{List, [], ◌∷◌, ◌++◌}
use native.Mathlib.Omega.{arith}
use knative_benchmark.Prelude.Tests.{◌==◌, if◌then◌else◌, Bool-cases}
use knative_benchmark.Prelude.Lists.{All, length, length-append}

abbrev pub Text : Type 0
Text = List ℕ

-- The bytes of an ASCII literal.
abbrev pub codes : String → Text
codes String.[] = []
codes (String.◌∷◌ c s) = code c ∷ codes s

abbrev pub text_eq : Text → Text → Bool
text_eq [] [] = true
text_eq (a ∷ s) (b ∷ t) = a == b && text_eq s t
text_eq _ _ = false

pub text_eq_iff : (s t : Text) → (text_eq s t ≡ true) ↔ (s ≡ t)
text_eq_iff [] [] = ground arith
text_eq_iff [] (b ∷ t) = ground arith
text_eq_iff (a ∷ s) [] = ground arith
text_eq_iff (a ∷ s) (b ∷ t) = ground (arith, text_eq_iff s t)

pub text_ne : (s t : Text) → s ≢ t → text_eq s t ≡ false
text_ne s t other = elim (Bool-cases (text_eq s t)) [
  | inl same ↦ absurd (other ((text_eq_iff s t).0 same))
  | inr differ ↦ differ
]

pub text_eq_refl : (s : Text) → text_eq s s ≡ true
text_eq_refl s = (text_eq_iff s s).1 refl

abbrev pub is_empty : Text → Bool
is_empty [] = true
is_empty (c ∷ s) = false

-- strings.HasPrefix(s, p)
abbrev pub has_prefix : Text → Text → Bool
has_prefix s [] = true
has_prefix [] (c ∷ p) = false
has_prefix (d ∷ s) (c ∷ p) = d == c && has_prefix s p

-- strings.HasSuffix(s, x)
abbrev pub has_suffix : Text → Text → Bool
has_suffix [] x = is_empty x
has_suffix (c ∷ s) x = text_eq (c ∷ s) x || has_suffix s x

-- strings.TrimSuffix(s, x)
abbrev pub trim_suffix : Text → Text → Text
trim_suffix [] x = []
trim_suffix (c ∷ s) x = let rest = trim_suffix s x in if text_eq (c ∷ s) x then [] else c ∷ rest

-- strings.Contains(s, x)
abbrev pub contains : Text → Text → Bool
contains [] x = is_empty x
contains (c ∷ s) x = has_prefix (c ∷ s) x || contains s x

abbrev pub push_first : ℕ → List Text → List Text
push_first c [] = (c ∷ []) ∷ []
push_first c (p ∷ ps) = (c ∷ p) ∷ ps

-- strings.Split(s, sep) for a separator of one byte
abbrev pub split : Text → ℕ → List Text
split [] sep = [] ∷ []
split (c ∷ s) sep = let rest = split s sep in if c == sep then [] ∷ rest else push_first c rest

abbrev pub Lacks : ℕ → Text → Type 0
Lacks b = All (λ c. c ≢ b)

-- A part without the separator, then the separator: one part is cut off.
pub split_part : (p s : Text) (sep : ℕ) → Lacks sep p → split (p ++ sep ∷ s) sep ≡ p ∷ split s sep
split_part [] s sep _ = ground arith
split_part (c ∷ p) s sep (hc, hp) = ground (arith, split_part p s sep hp)

pub split_whole : (p : Text) (sep : ℕ) → Lacks sep p → split p sep ≡ p ∷ []
split_whole [] sep _ = refl
split_whole (c ∷ p) sep (hc, hp) = ground (arith, split_whole p sep hp)

push_first-append :
    (c : ℕ) (p : Text) (ps qs : List Text)
    → push_first c ((p ∷ ps) ++ qs) ≡ push_first c (p ∷ ps) ++ qs
push_first-append c p ps qs = refl

pub split-ne-nil : (s : Text) (sep : ℕ) → split s sep ≢ []
split-ne-nil [] sep = ground arith
split-ne-nil (c ∷ s) sep = ground (arith, split-ne-nil s sep)

push_first_concat :
    (c : ℕ) (ps qs : List Text) → ps ≢ [] → push_first c (ps ++ qs) ≡ push_first c ps ++ qs
push_first_concat c [] qs h = absurd (h refl)
push_first_concat c (p ∷ ps) qs h = refl

-- Splitting distributes over a separator, whatever stands around it.
pub split-append : (s t : Text) (sep : ℕ) → split (s ++ sep ∷ t) sep ≡ split s sep ++ split t sep
split-append [] t sep = ground arith
split-append (c ∷ s) t sep = ground (
  arith,
  split-append s t sep,
  push_first_concat c (split s sep) (split t sep) (split-ne-nil s sep),
)

text_eq_longer : (s x : Text) (c : ℕ) → text_eq (c ∷ s ++ x) x ≡ false
text_eq_longer s x c = elim (Bool-cases (text_eq (c ∷ s ++ x) x)) [
  | inl e ↦
      absurd
        (omega (arith, ap (length {A = ℕ}) ((text_eq_iff (c ∷ s ++ x) x).0 e), length-append s x))
  | inr e ↦ e
]

-- Trimming a suffix that was appended gives the text back.
pub trim_suffix-append : (s x : Text) → trim_suffix (s ++ x) x ≡ s
trim_suffix-append [] [] = refl
trim_suffix-append [] (c ∷ x) = ground (arith, text_eq_refl x)
trim_suffix-append (c ∷ s) x = ground (arith, trim_suffix-append s x, text_eq_longer s x c)

abbrev pub has_text : Text → List Text → Bool
has_text s [] = false
has_text s (t ∷ ts) = text_eq s t || has_text s ts

-- What holds of every text of a list holds of the text that is found in it.
pub All-has_text {ℓ} :
    (P : Text → Type ℓ) (s : Text) (ts : List Text) → has_text s ts ≡ true → All P ts → P s
All-has_text P s [] h _ = absurd (false≢true h)
All-has_text P s (t ∷ ts) h (p, ps) = elim (Bool-cases (text_eq s t)) [
  | inl same ↦ rw ((text_eq_iff s t).0 same) p
  | inr other ↦ All-has_text P s ts (rw other at h) ps
]

-- A text that ends in `x` is a text before `x`.
pub has_suffix-append : (s x : Text) → has_suffix s x ≡ true → (p : Text) × (s ≡ p ++ x)
has_suffix-append [] [] h = ([], refl)
has_suffix-append [] (c ∷ x) h = absurd (false≢true h)
has_suffix-append (c ∷ s) x h = elim (Bool-cases (text_eq (c ∷ s) x)) [
  | inl same ↦ ([], (text_eq_iff (c ∷ s) x).0 same)
  | inr other ↦ let (p, e) = has_suffix-append s x (rw other at h) in (c ∷ p, ap (λ r. c ∷ r) e)
]

pub has_suffix_of_append : (s x : Text) → has_suffix (s ++ x) x ≡ true
has_suffix_of_append [] [] = refl
has_suffix_of_append [] (c ∷ x) = ground (arith, text_eq_refl x)
has_suffix_of_append (c ∷ s) x = ground (arith, has_suffix_of_append s x)
