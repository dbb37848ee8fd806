-- ===== src/LogParser/Pairs.antt =====
-- cmd/logparser/main.go, `parseKeyValuePairs`: the matches of the regular expression
-- (\w+)=((?:"\\+"[^"]*\\+""|"[^"]*"|[^"\s]+))
-- in a line. Each of its parts can match in one way only, so that there is no backtracking but the
-- choice between the three forms of a value, in their order.
pub mod Values
pub mod Laws
pub mod Fuel
use knative_benchmark.Prelude.{
  ℕ, zero, suc, ◌+◌, Bool, true, false, not, ◌&&◌, ◌||◌, List, [], ◌∷◌, ◌++◌, Option, none, some,
  if◌then◌else◌, leb, ◌==◌, Text, codes, Dict, insert, length, ◌≡◌, refl,
}

abbrev pub quote : ℕ
quote = b'"'

abbrev pub backslash : ℕ
backslash = b'\\'

-- \w and \s
abbrev pub is_word : ℕ → Bool
is_word c =
    (leb b'a' c && leb c b'z')
    || (leb b'A' c && leb c b'Z')
    || (leb b'0' c && leb c b'9')
    || c == b'_'

abbrev pub is_space : ℕ → Bool
is_space c = c == b' ' || (leb 9 c && leb c 10) || (leb 12 c && leb c 13)

abbrev pub is_plain : ℕ → Bool
is_plain c = not (c == quote) && not (is_space c)

-- The longest run of bytes that pass the test, and the rest.
unfoldable pub span : (ℕ → Bool) → Text → Text × Text
span p [] = ([], [])
span p (c ∷ s) = let (run, rest) = span p s in if p c then (c ∷ run, rest) else ([], c ∷ s)

abbrev ends_in_backslash : Text → Bool
ends_in_backslash [] = false
ends_in_backslash (c ∷ []) = c == backslash
ends_in_backslash (c ∷ d ∷ s) = ends_in_backslash (d ∷ s)

-- `"\\+"[^"]*\\+""` after its first quote: backslashes, a quote, a text without quotes that ends in a
-- backslash, two quotes.
escaped_end : Text → Text × Text → Option (Text × Text)
escaped_end slashes (inner, q ∷ r ∷ rest) =
    if ends_in_backslash inner && q == quote && r == quote
    then some (quote ∷ (slashes ++ quote ∷ (inner ++ quote ∷ quote ∷ [])), rest)
    else none
escaped_end slashes (inner, _) = none

escaped_inner : Text × Text → Option (Text × Text)
unfolding span escaped_end
escaped_inner (c ∷ slashes, q ∷ s) =
    if q == quote then escaped_end (c ∷ slashes) (span (λ d. not (d == quote)) s) else none
escaped_inner (_, _) = none

unfoldable pub escaped_value : Text → Option (Text × Text)
unfolding span escaped_inner
escaped_value s = escaped_inner (span (λ c. c == backslash) s)

-- `"[^"]*"` after its first quote.
quoted_end : Text × Text → Option (Text × Text)
quoted_end (inner, q ∷ rest) = some (quote ∷ (inner ++ quote ∷ []), rest)
quoted_end (inner, []) = none

unfoldable pub quoted_value : Text → Option (Text × Text)
unfolding span quoted_end
quoted_value s = quoted_end (span (λ c. not (c == quote)) s)

or_else : {A : Type 0} → Option A → Option A → Option A
or_else (some a) o = some a
or_else none o = o

abbrev non_empty : Text × Text → Option (Text × Text)
non_empty ([], rest) = none
non_empty (c ∷ run, rest) = some (c ∷ run, rest)

-- The value at the head of a text, and the text after it.
unfoldable pub value_at : Text → Option (Text × Text)
unfolding escaped_value quoted_value or_else span
value_at [] = none
value_at (c ∷ s) =
    if c == quote
    then or_else (escaped_value s) (quoted_value s)
    else non_empty (span is_plain (c ∷ s))

pub record Pair : Type 0 where
  pub key : Text
  pub value : Text

abbrev keyed : Text → Option (Text × Text) → Option (Pair × Text)
keyed key none = none
keyed key (some (value, rest)) = some (record { key = key; value = value }, rest)

-- A match at the head of a text: the run of word bytes, `=` and a value.
key_end : Text × Text → Option (Pair × Text)
unfolding value_at
key_end ([], rest) = none
key_end (c ∷ key, []) = none
key_end (c ∷ key, e ∷ s) = if e == b'=' then keyed (c ∷ key) (value_at s) else none

unfoldable pub match_at : Text → Option (Pair × Text)
unfolding key_end span
match_at s = key_end (span is_word s)

-- After a match the search goes on behind it, and elsewhere at the next byte.
abbrev go_on : (Text → List Pair) → Text → Option (Pair × Text) → List Pair
go_on search_from s none = search_from s
go_on search_from s (some (pair, rest)) = pair ∷ search_from rest

-- `FindAllStringSubmatch`. Each round drops a byte at least, so that the length of the line is
-- enough fuel.
unfoldable pub find_all : ℕ → Text → List Pair
unfolding match_at
find_all zero s = []
find_all (suc f) [] = []
find_all (suc f) (c ∷ s) = go_on (find_all f) s (match_at (c ∷ s))

-- `result[key] = value` for each match.
unfoldable pub collect : List Pair → Dict Text → Dict Text
collect [] m = m
collect (p ∷ ps) m = collect ps (insert p.key p.value m)

unfoldable pub parse_key_value_pairs : Text → Dict Text
unfolding find_all collect
parse_key_value_pairs line = collect (find_all (suc (length line)) line) []
