-- ===== src/Generator/Request/Laws.antt =====
-- pkg/generator/generator.go: the five handlers of a request beside each other.
use knative_benchmark.Prelude.{
  Bool-cases, length, Bool, true, false, not, ◌≡◌, refl, none, some, Text, arith, All, inl, inr,
}
use knative_benchmark.Config.{Target}
use knative_benchmark.Generator.Request.{
  Fetch, failure, fetched, Handled, run_request, send_request, max_request, event_request,
  event_send,
}

-- A response was received and its body is not closed.
abbrev pub leaks : Fetch → Handled → Bool
leaks (failure _) h = false
leaks (fetched m) h = not h.closed

abbrev pub cannot_read : Fetch → Bool
cannot_read (failure _) = false
cannot_read (fetched m) = m.response.read_fails

abbrev pub has_response : Fetch → Bool
has_response (failure _) = false
has_response (fetched m) = true

-- The body of a response stays open just in these cases: in the timed run and in both `sendRequest`
-- when it cannot be read; in the goroutine for an event, never; in the run for maximum throughput,
-- for every response.
pub leaks_iff :
    (t : Target) (id : Text) (f : Fetch)
    → (leaks f (run_request t f) ≡ cannot_read f)
      × (leaks f (send_request t f) ≡ cannot_read f)
      × (leaks f (event_send t id f) ≡ cannot_read f)
      × (leaks f (event_request t id f) ≡ false)
      × (leaks f (max_request t f) ≡ has_response f)
unfolding run_request send_request event_send event_request max_request
leaks_iff t id (failure none) = ground arith
leaks_iff t id (failure (some m)) = ground arith
leaks_iff t id (fetched m) = ground arith

-- The timed run logs one line for a request, the one that `sendRequest` logs, an error just when
-- `sendRequest` fails, and counts the request just when it does not.
pub run_request-send_request :
    (t : Target) (f : Fetch)
    → ((run_request t f).log ≡ (send_request t f).log)
      × (length (run_request t f).log ≡ 1)
      × All (λ e. e.is_error ≡ (send_request t f).fails) (run_request t f).log
      × ((run_request t f).counted ≡ not (send_request t f).fails)
unfolding run_request send_request
run_request-send_request t (failure o) = (refl, refl, (refl, tt), refl)
run_request-send_request t (fetched m) = elim (Bool-cases m.response.read_fails) [
  | inl e ↦ rw e (refl, refl, (refl, tt), refl)
  | inr e ↦ rw e (refl, refl, (refl, tt), refl)
]
