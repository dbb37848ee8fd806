-- ===== src/Pool/Trace.antt =====
-- pkg/connection/pool.go, `executeWithMetrics`: the callbacks of the trace and the times they keep.
pub mod Order
pub mod Laws
use knative_benchmark.Prelude.{
  ℕ, ◌+◌, ◌-◌, ◌^◌, List, [], ◌∷◌, Option, none, some, Result, ok, err, Text, Bool,
}

-- A callback of `httptrace.ClientTrace`, with the clock when it is called.
pub data TraceEvent : Type 0 where
  dns_start dns_done connect_start connect_done tls_start tls_done first_byte : ℕ → TraceEvent

-- The captured variables; `none` is Go's zero time.
pub record Timing : Type 0 where
  pub dns_start : Option ℕ
  pub connect_start : Option ℕ
  pub tls_start : Option ℕ
  pub dns_time : ℕ
  pub connect_time : ℕ
  pub tls_time : ℕ
  pub ttfb : ℕ

abbrev pub max_duration : ℕ
max_duration = 2 ^ 63 - 1

-- time.Since. The zero time is so long ago that the duration is the largest one. The clock is
-- monotonic, so that `-` is not cut off.
unfoldable pub since : Option ℕ → ℕ → ℕ
since none now = max_duration
since (some t) now = now - t

unfoldable pub on_event : ℕ → TraceEvent → Timing → Timing
unfolding since
on_event start (dns_start t) m = record m { dns_start = some t }
on_event start (dns_done t) m = record m { dns_time = since m.dns_start t }
on_event start (connect_start t) m = record m { connect_start = some t }
on_event start (connect_done t) m = record m { connect_time = since m.connect_start t }
on_event start (tls_start t) m = record m { tls_start = some t }
on_event start (tls_done t) m = record m { tls_time = since m.tls_start t }
on_event start (first_byte t) m = record m { ttfb = since (some start) t }

unfoldable pub run_trace : ℕ → List TraceEvent → Timing → Timing
unfolding on_event
run_trace start [] m = m
run_trace start (e ∷ es) m = run_trace start es (on_event start e m)

abbrev pub no_timing : Timing
no_timing = record {
  dns_start = none;
  connect_start = none;
  tls_start = none;
  dns_time = 0;
  connect_time = 0;
  tls_time = 0;
  ttfb = 0;
}

-- A response: its status, what reading the body gives, and whether that failed.
pub record Response : Type 0 where
  pub status : ℕ
  pub body : Text
  pub read_fails : Bool

pub record ResponseMetrics : Type 0 where
  pub response : Response
  pub timing : Timing
  pub total : ℕ

-- What `client.Do` does with a request: the callbacks it makes, its result, and the clock after it.
pub record Exchange (E : Type 0) : Type 0 where
  pub events : List TraceEvent
  pub result : Result E Response
  pub stop : ℕ

module _ {E : Type 0} where
  with_total : ℕ → Exchange E → Response → ResponseMetrics
  unfolding run_trace since
  with_total start x resp = record {
    response = resp;
    timing = run_trace start x.events no_timing;
    total = since (some start) x.stop;
  }

  finish : ℕ → Exchange E → Result E Response → Result E ResponseMetrics
  unfolding with_total
  finish start x (err e) = err e
  finish start x (ok resp) = ok (with_total start x resp)

  unfoldable pub execute_with_metrics : ℕ → Exchange E → Result E ResponseMetrics
  unfolding finish
  execute_with_metrics start x = finish start x x.result
