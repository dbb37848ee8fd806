-- ===== src/Generator/Request.antt =====
-- pkg/generator/generator.go: what the generators do with one request: what is logged, whether the
-- body of the response is closed, and whether the request counts or fails.
pub mod Laws
use knative_benchmark.Prelude.{
  ℕ, Bool, true, false, not, List, [], ◌∷◌, ◌++◌, Option, none, some, Result, ok, err,
  if◌then◌else◌, ◌==◌, Text, codes,
}
use knative_benchmark.Config.{Target}
use knative_benchmark.Pool.Trace.{Response, ResponseMetrics}

-- A line of the log, with the attributes that the generators give it.
pub record Entry : Type 0 where
  pub is_error : Bool
  pub msg : Text
  pub target : Text
  pub id : Option Text
  pub metrics : Option ResponseMetrics
  pub is_cold : Option Text

abbrev pub success : Text
success = codes "Success"

abbrev pub request_error : Text
request_error = codes "Request error"

abbrev pub read_error : Text
read_error = codes "Failed to read response body"

abbrev pub failed_msg : Text
failed_msg = codes "Failed"

abbrev pub no_metrics : Text
no_metrics = codes "Failed with no metrics"

-- What the pool returns: an error, perhaps with metrics, or metrics.
pub data Fetch : Type 0 where
  failure : Option ResponseMetrics → Fetch
  fetched : ResponseMetrics → Fetch

-- The pool of pkg/connection gives no metrics beside an error.
abbrev pub of_result : {E : Type 0} → Result E ResponseMetrics → Fetch
of_result (err e) = failure none
of_result (ok m) = fetched m

pub record Handled : Type 0 where
  pub log : List Entry
  pub closed : Bool
  pub counted : Bool
  pub fails : Bool

abbrev error_entry : Target → Text → Entry
error_entry t msg = record {
  is_error = true;
  msg = msg;
  target = t.url;
  id = none;
  metrics = none;
  is_cold = none;
}

abbrev success_entry : Target → Option Text → ResponseMetrics → Entry
success_entry t id m = record {
  is_error = false;
  msg = success;
  target = t.url;
  id = id;
  metrics = some m;
  is_cold = some m.response.body;
}

abbrev refused : List Entry → Handled
refused log = record { log = log; closed = false; counted = false; fails = true }

-- The goroutine of `generator.run`. A body that cannot be read is not closed.
unfoldable pub run_request : Target → Fetch → Handled
run_request t (failure _) = refused (error_entry t request_error ∷ [])
run_request t (fetched m) =
    if m.response.read_fails
    then refused (error_entry t read_error ∷ [])
    else record { log = success_entry t none m ∷ []; closed = true; counted = true; fails = false }

-- `generator.sendRequest`
unfoldable pub send_request : Target → Fetch → Handled
send_request t (failure _) = refused (error_entry t request_error ∷ [])
send_request t (fetched m) =
    if m.response.read_fails
    then refused (error_entry t read_error ∷ [])
    else record { log = success_entry t none m ∷ []; closed = true; counted = false; fails = false }

-- The goroutine of `runMaxThroughput`. It goes on after a body that cannot be read.
unfoldable pub max_request : Target → Fetch → Handled
max_request t (failure _) = refused (error_entry t request_error ∷ [])
max_request t (fetched m) =
    if m.response.status == 200
    then record {
      log =
          (if m.response.read_fails then error_entry t read_error ∷ [] else [])
          ++ success_entry t none m ∷ [];
      closed = false;
      counted = false;
      fails = false;
    }
    else refused (record (error_entry t failed_msg) { metrics = some m } ∷ [])

-- The goroutine of `cloudEventGenerator.run`, for the event with this id.
unfoldable pub event_request : Target → Text → Fetch → Handled
event_request t id (failure none) = refused (error_entry t no_metrics ∷ [])
event_request t id (failure (some m)) =
    refused (record (error_entry t failed_msg) { id = some id; metrics = some m } ∷ [])
event_request t id (fetched m) = record {
  log =
      (if m.response.read_fails then error_entry t read_error ∷ [] else [])
      ++ success_entry t (some id) m ∷ [];
  closed = true;
  counted = false;
  fails = false;
}

-- `cloudEventGenerator.sendRequest`
unfoldable pub event_send : Target → Text → Fetch → Handled
event_send t id (failure _) = refused (error_entry t request_error ∷ [])
event_send t id (fetched m) =
    if m.response.read_fails then refused (error_entry t read_error ∷ []) else record {
      log = success_entry t (some id) m ∷ [];
      closed = true;
      counted = false;
      fails = false;
    }
