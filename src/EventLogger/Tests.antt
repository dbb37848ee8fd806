-- ===== src/EventLogger/Tests.antt =====
-- Requests to the event logger of cmd/eventlogger/main.go.
use knative_benchmark.Prelude.{
  ◌≡◌, ◌≢◌, refl, Bool, true, false, List, [], ◌∷◌, ◌++◌, map, none, some, ok, err, Text, codes,
  All,
}
use knative_benchmark.EventLogger.{LogRequest, internal_error, header_row, serve}
use knative_benchmark.EventLogger.Laws.{locked_reply, event_rows, serve-rows, serve-deadlock}

abbrev log_event : Bool → LogRequest
log_event fails = record {
  method = codes "POST";
  event = ok (codes "7", codes "now");
  write_fails = fails;
}

abbrev log_get : LogRequest
log_get = record { method = codes "GET"; event = err []; write_fails = false }

abbrev requests : List LogRequest
requests = log_get ∷ log_event false ∷ []

abbrev rows : List (List Text)
rows = header_row ∷ []

serve-rows_example :
    ((serve requests (record { locked = false; rows = rows })).1
      ≡ record { locked = false; rows = rows ++ event_rows requests })
    × All (λ reply. reply ≢ none) (serve requests (record { locked = false; rows = rows })).0
serve-rows_example = serve-rows requests rows (refl, (refl, tt))

serve-deadlock_example :
    serve (log_event true ∷ requests) (record { locked = false; rows = rows })
    ≡ (some internal_error ∷ map locked_reply requests, record { locked = true; rows = rows })
serve-deadlock_example = serve-deadlock (log_event true) requests rows refl refl refl
