-- ===== src/Functions/Laws.antt =====
-- functions/: the cold flag and the counter of the Go handlers.
use knative_benchmark.Prelude.{
  ℕ, zero, suc, ◌+◌, ◌≤◌, ◌<◌, ◌≡◌, refl, ap, true, false, List, [], ◌∷◌, map, Text, codes, Result,
  ok, ◌>>=◌, ◌==◌, arith,
}
use knative_benchmark.Decimal.{NumError, max_int, itoa, decimal}
use knative_benchmark.Decimal.Laws.{atoi-decimal}
use knative_benchmark.Functions.{handle_empty, handle_sleep, bodies, increment, handle_event}

warm_bodies : (n : List (Unit {0})) → bodies handle_empty n false ≡ map (λ _. codes "false") n
unfolding bodies handle_empty
warm_bodies [] = refl
warm_bodies (_ ∷ n) = ap (λ r. codes "false" ∷ r) (warm_bodies n)

-- A new instance of either function answers `true` to its first request, and `false` to all others.
bodies-first_cold :
    (n : List (Unit {0}))
    → (bodies handle_empty (tt ∷ n) true ≡ codes "true" ∷ map (λ _. codes "false") n)
      × (bodies handle_sleep (tt ∷ n) true ≡ codes "true" ∷ map (λ _. codes "false") n)
unfolding bodies handle_empty handle_sleep
bodies-first_cold n =
    (ap (λ r. codes "true" ∷ r) (warm_bodies n), ap (λ r. codes "true" ∷ r) (warm_bodies n))

-- A sequence of `n` instances of go-handler-event, each given the event that the one before it
-- answered.
pub handle_chain :
    {Event : Type 0}
    → (content_type_of : Event → Text) → (data_of : Event → Text)
    → (set_data : Text → Text → Event → Result NumError Event) → ℕ
    → Event
    → Result NumError Event
unfolding handle_event
handle_chain content_type_of data_of set_data zero e = ok e
handle_chain content_type_of data_of set_data (suc n) e =
    handle_event content_type_of data_of set_data e
    >>= handle_chain content_type_of data_of set_data n

abbrev pub text_plain : Text
text_plain = codes "text/plain"

-- For the content type text/plain the event package stores a text as it is, with that content type.
abbrev pub StoresPlain :
    {Event : Type 0}
    → (Event → Text)
    → (Event → Text)
    → (Text → Text → Event → Result NumError Event)
    → Type 0
StoresPlain {Event} content_type_of data_of set_data =
    (s : Text) (e : Event)
    → (e' : Event) × (set_data text_plain s e ≡ ok e')
      × (data_of e' ≡ s)
      × (content_type_of e' ≡ text_plain)

-- A plain event that holds a natural number.
abbrev pub Holds : {Event : Type 0} → (Event → Text) → (Event → Text) → ℕ → Event → Type 0
Holds content_type_of data_of m e = (content_type_of e ≡ text_plain) × (data_of e ≡ decimal m)

handle_event-decimal :
    {Event : Type 0} (content_type_of data_of : Event → Text)
    (set_data : Text → Text → Event → Result NumError Event) (m : ℕ) (e : Event)
    → StoresPlain content_type_of data_of set_data
    → m < max_int
    → Holds content_type_of data_of m e
    → (e' : Event) × (handle_event content_type_of data_of set_data e ≡ ok e')
      × Holds content_type_of data_of (m + 1) e'
unfolding handle_event increment itoa
handle_event-decimal content_type_of data_of set_data m e stores fits (is_plain, is_m) =
    let (e', set, got, plain) = stores (decimal (m + 1)) e in
    let below : (m == max_int) ≡ false = ground arith in
    (e', rw (is_m, is_plain, atoi-decimal m (omega arith), below) set, (plain, got))

-- If the event package stores a text as it is in an event of the content type text/plain, a sequence
-- of `n` handlers turns such an event that holds a natural number into one that holds the number
-- that is larger by `n`, in decimal, as long as an `int` holds that number.
pub handle_chain_lem :
    {Event : Type 0} (content_type_of data_of : Event → Text)
    (set_data : Text → Text → Event → Result NumError Event) (n m : ℕ) (e : Event)
    → StoresPlain content_type_of data_of set_data
    → m + n ≤ max_int
    → Holds content_type_of data_of m e
    → (e' : Event) × (handle_chain content_type_of data_of set_data n e ≡ ok e')
      × Holds content_type_of data_of (m + n) e'
unfolding handle_chain
handle_chain_lem content_type_of data_of set_data zero m e stores fits holds =
    let same : m + zero ≡ m = omega arith in (e, refl, rw same holds)
handle_chain_lem content_type_of data_of set_data (suc n) m e stores fits holds =
    let (e', first, next) =
      handle_event-decimal content_type_of data_of set_data m e stores (omega arith) holds in
    let (e'', rest, last) =
      handle_chain_lem content_type_of data_of set_data n (m + 1) e' stores (omega arith) next in
    let sum : m + 1 + n ≡ m + suc n = omega arith in (e'', rw first rest, rw sum at last)
