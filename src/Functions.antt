-- ===== src/Functions.antt =====
-- functions/empty-go, functions/sleep-go-http and functions/go-handler-event: the Go handlers under
-- test.
pub mod Laws
pub mod Tests
use knative_benchmark.Prelude.{
  ℕ, ◌+◌, Bool, true, false, List, [], ◌∷◌, Result, ok, err, ◌>>=◌, if◌then◌else◌, ◌==◌, Text,
  codes, ℤ, pos, negsuc, ◌-◌,
}
use knative_benchmark.Decimal.{NumError, max_int, atoi, itoa}

-- strconv.FormatBool
abbrev pub format_bool : Bool → Text
format_bool true = codes "true"
format_bool false = codes "false"

-- `Handle` of empty-go: the body of the response, and the new `isCold`.
unfoldable pub handle_empty : Bool → Text × Bool
handle_empty is_cold = (format_bool is_cold, false)

-- `Handle` of sleep-go-http sleeps a second before it does the same.
unfoldable pub handle_sleep : Bool → Text × Bool
handle_sleep is_cold = (format_bool is_cold, false)

-- The bodies of `n` requests to one instance, one after the other.
unfoldable pub bodies : (Bool → Text × Bool) → List (Unit {0}) → Bool → List Text
bodies handle [] is_cold = []
bodies handle (_ ∷ n) is_cold =
    let (body, is_cold') = handle is_cold in body ∷ bodies handle n is_cold'

-- `counter++` on an int, which wraps around.
unfoldable pub increment : ℤ → ℤ
increment (pos n) = if n == max_int then negsuc max_int else pos (n + 1)
increment (negsuc n) = if n == 0 then pos 0 else negsuc (n - 1)

-- `Handle` of go-handler-event; the response is a copy of the event with the new data.
-- `content_type_of`, `data_of` and `set_data` are DataContentType, Data and SetData of the event
-- package, the last with the content type that it is given.
unfoldable pub handle_event :
    {Event : Type 0}
    → (content_type_of : Event → Text) → (data_of : Event → Text)
    → (set_data : Text → Text → Event → Result NumError Event) → Event
    → Result NumError Event
unfolding increment
handle_event content_type_of data_of set_data e =
    atoi (data_of e) >>= λ counter. set_data (content_type_of e) (itoa (increment counter)) e
