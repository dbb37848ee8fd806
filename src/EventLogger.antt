-- ===== src/EventLogger.antt =====
-- cmd/eventlogger/main.go: the handler of `/log`, and the header that `main` writes.
pub mod Laws
pub mod Tests
use knative_benchmark.Prelude.{
  ℕ, Bool, true, false, List, [], ◌∷◌, ◌++◌, Option, none, some, Result, ok, err, if◌then◌else◌,
  ◌==◌, Text, codes, text_eq,
}

-- The mutex, and the rows handed to the CSV writer.
pub record Logger : Type 0 where
  pub locked : Bool
  pub rows : List (List Text)

abbrev pub header_row : List Text
header_row = codes "event_id" ∷ codes "timestamp" ∷ []

-- `main` before it serves: an empty file gets the header. `none` is an exit.
unfoldable pub start : (size : ℕ) → (header_fails : Bool) → Option Logger
start size header_fails =
    if size == 0
    then (if header_fails then none else some (record { locked = false; rows = header_row ∷ [] }))
    else some (record { locked = false; rows = [] })

-- A request: its method, what decoding its body gives (the event's id and its time as it is printed),
-- and whether the CSV writer refuses the row.
pub record LogRequest : Type 0 where
  pub method : Text
  pub event : Result Text (Text × Text)
  pub write_fails : Bool

pub data Reply : Type 0 where
  ok_200 method_not_allowed bad_request internal_error : Reply

-- With the mutex taken. An error returns without `mu.Unlock()`.
abbrev write_row : Text × Text → Bool → Logger → Reply × Logger
write_row (id, time) true l = (internal_error, record l { locked = true })
write_row (id, time) false l =
    (ok_200, record { locked = false; rows = l.rows ++ (id ∷ time ∷ []) ∷ [] })

-- `mu.Lock()`: `none` is a request that waits for ever, since whoever holds the mutex has returned.
abbrev with_lock : Text × Text → Bool → Logger → Option (Reply × Logger)
with_lock event write_fails l = if l.locked then none else some (write_row event write_fails l)

abbrev decoded : Result Text (Text × Text) → Bool → Logger → Option (Reply × Logger)
decoded (err e) write_fails l = some (bad_request, l)
decoded (ok event) write_fails l = with_lock event write_fails l

-- One request, from its arrival to its reply; requests that wait for the mutex come one by one.
unfoldable pub handle : LogRequest → Logger → Option (Reply × Logger)
handle r l =
    if text_eq r.method (codes "POST")
    then decoded r.event r.write_fails l
    else some (method_not_allowed, l)

abbrev proceed : Logger → Option (Reply × Logger) → Option Reply × Logger
proceed l none = (none, l)
proceed l (some (reply, l')) = (some reply, l')

-- The replies to a sequence of requests; a request with no reply leaves the others to go on.
unfoldable pub serve : List LogRequest → Logger → List (Option Reply) × Logger
unfolding handle
serve [] l = ([], l)
serve (r ∷ rs) l =
    let (reply, l') = proceed l (handle r l) in
    let (replies, l'') = serve rs l' in (reply ∷ replies, l'')
