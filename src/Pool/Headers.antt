-- ===== src/Pool/Headers.antt =====
-- `net/http` as the pool uses it: the canonical spelling of a header's key, and `Header.Set`.
pub mod Laws
use knative_benchmark.Prelude.{
  ℕ, ◌+◌, ◌-◌, Bool, true, false, ◌&&◌, ◌||◌, List, [], ◌∷◌, if◌then◌else◌, leb, ltb, ◌==◌, Text,
  codes, Dict, insert, text_eq, contains,
}

abbrev pub is_lower : ℕ → Bool
is_lower c = leb b'a' c && leb c b'z'

abbrev pub is_upper : ℕ → Bool
is_upper c = leb b'A' c && leb c b'Z'

abbrev is_mark : ℕ → Text → Bool
is_mark c [] = false
is_mark c (d ∷ s) = c == d || is_mark c s

-- The bytes that may stand in a header's key.
unfoldable pub is_token : ℕ → Bool
is_token c =
    is_lower c || is_upper c || (leb b'0' c && leb c b'9') || is_mark c (codes "!#$%&'*+-.^_`|~")

unfoldable pub all_token : Text → Bool
all_token [] = true
all_token (c ∷ s) = is_token c && all_token s

abbrev pub raise_case : ℕ → ℕ
raise_case c = if is_lower c then c - 32 else c

abbrev pub lower_case : ℕ → ℕ
lower_case c = if is_upper c then c + 32 else c

-- `upper` says that the letter begins a word.
unfoldable pub fix_case : Bool → ℕ → ℕ
fix_case upper c = if upper then raise_case c else lower_case c

unfoldable pub recase : Bool → Text → Text
recase upper [] = []
recase upper (c ∷ s) = fix_case upper c ∷ recase (fix_case upper c == b'-') s

-- textproto.CanonicalMIMEHeaderKey: a key with any other byte is left as it is.
unfoldable pub canonical : Text → Text
unfolding all_token recase fix_case
canonical k = if all_token k then recase true k else k

-- h.Set(k, v)
unfoldable pub set_header : Text → Text → Dict Text → Dict Text
unfolding canonical
set_header k v h = insert (canonical k) v h

-- The loop `for k, v := range target.Headers`.
unfoldable pub set_headers : Dict Text → Dict Text → Dict Text
unfolding set_header
set_headers [] h = h
set_headers ((k, v) ∷ kvs) h = set_headers kvs (set_header k v h)
