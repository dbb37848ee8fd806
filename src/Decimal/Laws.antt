-- ===== src/Decimal/Laws.antt =====
-- Go's package `strconv`: `Atoi` on what `Itoa` writes.
use knative_benchmark.Prelude.{
  ℕ, zero, suc, ◌+◌, ◌/◌, ◌%◌, ◌≤◌, ◌<◌, ◌≡◌, ◌≢◌, refl, ◌∙◌, true, [], ◌∷◌, ok, ◌>>=◌, arith, Text,
  All, ℤ, pos, negsuc,
}
use knative_benchmark.Decimal.{
  positive, max_u64, max_int, is_digit, scan, parse_uint, atoi, emit, decimal, itoa,
}

abbrev pub Digits : Text → Type 0
Digits = All (λ c. is_digit c ≡ true)

emit-Digits : (f n : ℕ) (out : Text) → Digits out → Digits (emit f n out)
unfolding emit
emit-Digits zero n out h = h
emit-Digits (suc f) n out h = ground (arith, emit-Digits f (n / 10) ((b'0' + n % 10) ∷ out))

scan-emit : (f n : ℕ) (out : Text) → n < f → n ≤ max_u64 → scan 0 (emit f n out) ≡ scan n out
unfolding emit scan
scan-emit zero n out h fits = absurd (omega arith)
scan-emit (suc f) n out h fits = ground (arith, scan-emit f (n / 10) ((b'0' + n % 10) ∷ out))

emit-ne-nil : (f n : ℕ) (c : ℕ) (out : Text) → emit f n (c ∷ out) ≢ []
unfolding emit
emit-ne-nil zero n c out = ground arith
emit-ne-nil (suc f) n c out = ground (arith, emit-ne-nil f (n / 10) (b'0' + n % 10) (c ∷ out))

pub decimal-ne-nil : (n : ℕ) → decimal n ≢ []
unfolding decimal
decimal-ne-nil n = ground (arith, emit-ne-nil n (n / 10) (b'0' + n % 10) [])

pub decimal-Digits : (n : ℕ) → Digits (decimal n)
unfolding decimal
decimal-Digits n = emit-Digits (suc n) n [] tt

pub scan-decimal : (n : ℕ) → n ≤ max_u64 → scan 0 (decimal n) ≡ ok n
unfolding decimal
scan-decimal n fits = scan-emit (suc n) n [] (omega arith) fits ∙ (unfold scan in refl)

parse_uint-scan : (s : Text) → s ≢ [] → parse_uint s ≡ scan 0 s
unfolding parse_uint
parse_uint-scan [] h = absurd (h refl)
parse_uint-scan (c ∷ s) _ = refl

pub parse_uint-decimal : (n : ℕ) → n ≤ max_u64 → parse_uint (decimal n) ≡ ok n
parse_uint-decimal n h = parse_uint-scan (decimal n) (decimal-ne-nil n) ∙ scan-decimal n h

-- A text of digits has no sign.
atoi_of_Digits : (s : Text) → Digits s → s ≢ [] → atoi s ≡ (parse_uint s >>= positive)
unfolding atoi
atoi_of_Digits [] h k = absurd (k refl)
atoi_of_Digits (c ∷ s) h k = ground arith

pub atoi-decimal : (n : ℕ) → n ≤ max_int → atoi (decimal n) ≡ ok (pos n)
atoi-decimal n h =
    atoi_of_Digits (decimal n) (decimal-Digits n) (decimal-ne-nil n)
    ∙ rw (parse_uint-decimal n (omega arith)) (ground arith)

-- `Itoa` is undone by `Atoi`, on every `int`.
abbrev pub IsInt : ℤ → Type 0
IsInt (pos n) = n ≤ max_int
IsInt (negsuc n) = n ≤ max_int

pub atoi-itoa : (k : ℤ) → IsInt k → atoi (itoa k) ≡ ok k
unfolding itoa
atoi-itoa (pos n) h = atoi-decimal n h
atoi-itoa (negsuc n) h = unfold atoi in rw (parse_uint-decimal (suc n) (omega arith)) (ground arith)

pub decimal_injective : (n m : ℕ) → n ≤ max_u64 → m ≤ max_u64 → decimal n ≡ decimal m → n ≡ m
decimal_injective n m hn hm e = cc (scan-decimal n hn, scan-decimal m hm)
