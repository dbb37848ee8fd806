-- ===== src/Receiver.antt =====
-- cmd/reciever/main.go: the handler of an event, which posts it to the event logger of
-- cmd/eventlogger/main.go.
pub mod Laws
pub mod Tests
use knative_benchmark.Prelude.{
  ℕ, Bool, true, false, List, [], ◌∷◌, Option, none, some, Result, ok, err, if◌then◌else◌, ◌==◌,
  Text, codes,
}
use knative_benchmark.EventLogger.{
  Logger, LogRequest, Reply, ok_200, method_not_allowed, bad_request, internal_error, handle,
}

-- After the response: in the branch for another status than 200 the `err` that is returned is nil.
unfoldable pub check_status : {E : Type 0} → ℕ → Result E (Unit {0})
check_status status = if status == 200 then ok tt else ok tt

abbrev pub status_of_reply : Reply → ℕ
status_of_reply ok_200 = 200
status_of_reply method_not_allowed = 405
status_of_reply bad_request = 400
status_of_reply internal_error = 500

-- What becomes of the call: the event logger is not reached, or it is, and its CSV writer may refuse
-- the row.
pub data Delivery (E : Type 0) : Type 0 where
  unreachable : E → Delivery E
  reached : (write_fails : Bool) → Delivery E

-- `marshal` makes a body of an event and the time, and `decode` is the decoder of the event logger.
module _ {E Event : Type 0} (marshal : Event → Result E Text)
    (decode : Text → Result Text (Text × Text)) where
  abbrev log_request : Bool → Text → LogRequest
  log_request write_fails body = record {
    method = codes "POST";
    event = decode body;
    write_fails = write_fails;
  }

  -- The response of the event logger; `none` is a call that waits for ever.
  answered : Option (Reply × Logger) → Option (Result E (Unit {0}) × Logger)
  unfolding check_status
  answered none = none
  answered (some (reply, l)) = some (check_status (status_of_reply reply), l)

  posted : Delivery E → Logger → Result E Text → Option (Result E (Unit {0}) × Logger)
  unfolding answered handle
  posted d l (err e) = some (err e, l)
  posted (unreachable e) l (ok body) = some (err e, l)
  posted (reached write_fails) l (ok body) = answered (handle (log_request write_fails body) l)

  -- The handler on an event, with the state of the event logger before and after it.
  unfoldable pub receive : Delivery E → Event → Logger → Option (Result E (Unit {0}) × Logger)
  unfolding posted
  receive d e l = posted d l (marshal e)

  then_all : (Logger → Option Logger) → Option (Result E (Unit {0}) × Logger) → Option Logger
  then_all go none = none
  then_all go (some (r, l)) = go l

  -- A sequence of events that all reach the event logger and of which no write fails; `none` if one
  -- waits for ever.
  unfoldable pub receive_all : List Event → Logger → Option Logger
  unfolding receive then_all
  receive_all [] l = some l
  receive_all (e ∷ es) l = then_all (receive_all es) (receive (reached false) e l)
