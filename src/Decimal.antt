-- ===== src/Decimal.antt =====
-- What the program uses of Go's package `strconv`: `Atoi` and `Itoa` for the 64-bit `int`.
pub mod Laws
use Prim.Native.Nat.{min, max}
use knative_benchmark.Prelude.{
  ℕ, zero, suc, ◌+◌, ◌-◌, ◌*◌, ◌/◌, ◌%◌, ◌^◌, ◌≡◌, refl, Bool, ◌&&◌, List, [], ◌∷◌, ◌++◌, Result,
  ok, err, ◌>>=◌, ltb, leb, ◌==◌, if◌then◌else◌, Text, codes, ℤ, pos, negsuc, Option, none, some,
}

abbrev pub max_u64 : ℕ
max_u64 = 2 ^ 64 - 1

abbrev pub max_int : ℕ
max_int = 2 ^ 63 - 1

pub data NumError : Type 0 where
  bad_syntax out_of_range : NumError

abbrev pub is_digit : ℕ → Bool
is_digit c = leb b'0' c && leb c b'9'

-- The loop of `ParseUint` in base 10. It stops at the first byte that is no digit, and at the
-- first digit with which the value passes the largest uint64.
unfoldable pub scan : ℕ → Text → Result NumError ℕ
scan n [] = ok n
scan n (c ∷ s) =
    let m = n * 10 + (c - b'0') in
    let rest = scan m s in
    if is_digit c then (if ltb max_u64 m then err out_of_range else rest) else err bad_syntax

unfoldable pub parse_uint : Text → Result NumError ℕ
unfolding scan
parse_uint [] = err bad_syntax
parse_uint (c ∷ s) = scan 0 (c ∷ s)

-- A magnitude with its sign, if an `int` holds it.
abbrev pub positive : ℕ → Result NumError ℤ
positive n = if leb n max_int then ok (pos n) else err out_of_range

abbrev pub negative : ℕ → Result NumError ℤ
negative n =
    if n == 0
    then ok (pos 0)
    else if leb n (max_int + 1)
    then ok (negsuc (n - 1))
    else err out_of_range

unfoldable pub atoi : Text → Result NumError ℤ
unfolding parse_uint
atoi [] = err bad_syntax
atoi (c ∷ s) =
    if c == b'-'
    then (parse_uint s >>= negative)
    else if c == b'+'
    then (parse_uint s >>= positive)
    else (parse_uint (c ∷ s) >>= positive)

-- The value that `Atoi` returns beside an error: 0, or the nearest `int`.
unfoldable pub atoi_value : Text → ℤ
unfolding atoi
atoi_value s = elim (atoi s) [
  | ok n ↦ n
  | err bad_syntax ↦ pos 0
  | err out_of_range ↦ elim s [
    | [] ↦ pos 0
    | c ∷ _ ↦ if c == b'-' then negsuc max_int else pos max_int
  ]
]

-- The digits of `n` before `out`, with `f` rounds at most; `n + 1` rounds are enough.
unfoldable pub emit : ℕ → ℕ → Text → Text
emit zero n out = out
emit (suc f) n out =
    let longer = (b'0' + n % 10) ∷ out in
    let rest = emit f (n / 10) longer in if ltb n 10 then longer else rest

unfoldable pub decimal : ℕ → Text
unfolding emit
decimal n = emit (suc n) n []

unfoldable pub itoa : ℤ → Text
unfolding decimal
itoa (pos n) = decimal n
itoa (negsuc n) = b'-' ∷ decimal (suc n)
