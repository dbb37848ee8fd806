-- ===== src/Pool/Trace/Laws.antt =====
-- pkg/connection/pool.go, `executeWithMetrics`: the measured times and the clock.
use knative_benchmark.Prelude.{
  ℕ, ◌-◌, ◌≤◌, ◌≡◌, List, [], ◌∷◌, Option, none, some, Result, ok, err, arith, Bool, true, false,
}
use native.Mathlib.Nat.{le_refl}
use knative_benchmark.Pool.Trace.{
  finish, TraceEvent, dns_start, dns_done, connect_start, connect_done, tls_start, tls_done,
  first_byte, Timing, since, on_event, run_trace, no_timing, Response, ResponseMetrics, Exchange,
  execute_with_metrics, with_total,
}
use knative_benchmark.Pool.Trace.Order.{
  Begun, time_of, MayHappen, begin_phase, IsOrdered, not_begun,
}

-- A phase that has begun has a start between the request's and the present.
abbrev Started : ℕ → ℕ → Bool → Option ℕ → Type 0
Started start now true (some t) = (start ≤ t) × (t ≤ now)
Started start now true none = ⊥
Started start now false _ = Unit

-- The starts of the phases that have begun, the present, and the four measured times.
abbrev IsTimed : ℕ → ℕ → Begun → Timing → Type 0
IsTimed start now b m =
    Started start now b.dns m.dns_start
    × Started start now b.connect m.connect_start
    × Started start now b.tls m.tls_start
    × (start ≤ now)
    × (m.dns_time ≤ now - start)
    × (m.connect_time ≤ now - start)
    × (m.tls_time ≤ now - start)
    × (m.ttfb ≤ now - start)

Started-later :
    (start now later : ℕ) (b : Bool) (o : Option ℕ)
    → now ≤ later
    → Started start now b o
    → Started start later b o
Started-later start now later true (some t) h s = omega arith
Started-later start now later true none h s = s
Started-later start now later false o h s = tt

since-within :
    (start now later : ℕ) (o : Option ℕ)
    → now ≤ later
    → Started start now true o
    → since o later ≤ later - start
unfolding since
since-within start now later (some t) h s = omega arith
since-within start now later none h s = absurd s

IsTimed-later :
    (start now later : ℕ) (b : Begun) (m : Timing)
    → now ≤ later
    → IsTimed start now b m
    → IsTimed start later b m
IsTimed-later start now later b m h (dns, connect, tls, present, dw, cw, tw, fw) = (
  Started-later start now later b.dns m.dns_start h dns,
  Started-later start now later b.connect m.connect_start h connect,
  Started-later start now later b.tls m.tls_start h tls,
  omega arith,
  omega arith,
  omega arith,
  omega arith,
  omega arith,
)

on_event-IsTimed :
    (start now : ℕ) (b : Begun) (m : Timing) (e : TraceEvent)
    → MayHappen b e
    → now ≤ time_of e
    → IsTimed start now b m
    → IsTimed start (time_of e) (begin_phase b e) (on_event start e m)
unfolding on_event
on_event-IsTimed start now b m (dns_start t) may h k =
    let (dns, connect, tls, present, dw, cw, tw, fw) = IsTimed-later start now t b m h k in
    ((present, le_refl t), connect, tls, present, dw, cw, tw, fw)
on_event-IsTimed start now b m (connect_start t) may h k =
    let (dns, connect, tls, present, dw, cw, tw, fw) = IsTimed-later start now t b m h k in
    (dns, (present, le_refl t), tls, present, dw, cw, tw, fw)
on_event-IsTimed start now b m (tls_start t) may h k =
    let (dns, connect, tls, present, dw, cw, tw, fw) = IsTimed-later start now t b m h k in
    (dns, connect, (present, le_refl t), present, dw, cw, tw, fw)
on_event-IsTimed start now b m (dns_done t) may h k =
    let (dns, connect, tls, present, dw, cw, tw, fw) = IsTimed-later start now t b m h k in
    let ended = since-within start now t m.dns_start h (rw may at k.0) in
    (dns, connect, tls, present, ended, cw, tw, fw)
on_event-IsTimed start now b m (connect_done t) may h k =
    let (dns, connect, tls, present, dw, cw, tw, fw) = IsTimed-later start now t b m h k in
    let ended = since-within start now t m.connect_start h (rw may at k.1) in
    (dns, connect, tls, present, dw, ended, tw, fw)
on_event-IsTimed start now b m (tls_done t) may h k =
    let (dns, connect, tls, present, dw, cw, tw, fw) = IsTimed-later start now t b m h k in
    let ended = since-within start now t m.tls_start h (rw may at k.2) in
    (dns, connect, tls, present, dw, cw, ended, fw)
on_event-IsTimed start now b m (first_byte t) may h k =
    let (dns, connect, tls, present, dw, cw, tw, fw) = IsTimed-later start now t b m h k in
    (dns, connect, tls, present, dw, cw, tw, unfold since in le_refl (t - start))

-- The four measured times are at most `n`.
abbrev pub IsWithin : ℕ → Timing → Type 0
IsWithin n m = (m.dns_time ≤ n) × (m.connect_time ≤ n) × (m.tls_time ≤ n) × (m.ttfb ≤ n)

run_trace-IsWithin :
    (start now : ℕ) (b : Begun) (m : Timing) (es : List TraceEvent) (stop : ℕ)
    → IsOrdered now b es stop
    → IsTimed start now b m
    → IsWithin (stop - start) (run_trace start es m)
unfolding run_trace
run_trace-IsWithin start now b m [] stop h k =
    let (dns, connect, tls, present, dw, cw, tw, fw) = IsTimed-later start now stop b m h k in
    (dw, cw, tw, fw)
run_trace-IsWithin start now b m (e ∷ es) stop (may, h, rest) k =
    run_trace-IsWithin start (time_of e) (begin_phase b e) (on_event start e m) es stop rest
      (on_event-IsTimed start now b m e may h k)

IsTimed-no_timing : (start : ℕ) → IsTimed start start not_begun no_timing
IsTimed-no_timing start =
    (tt, tt, tt, le_refl start, omega arith, omega arith, omega arith, omega arith)

with_total-IsWithin :
    {E : Type 0} (start : ℕ) (x : Exchange E) (resp : Response)
    → IsOrdered start not_begun x.events x.stop
    → IsWithin (with_total start x resp).total (with_total start x resp).timing
unfolding with_total
with_total-IsWithin start x resp h =
    run_trace-IsWithin start start not_begun no_timing x.events x.stop h (IsTimed-no_timing start)

finish-IsWithin :
    {E : Type 0} (start : ℕ) (x : Exchange E) (result : Result E Response) (r : ResponseMetrics)
    → IsOrdered start not_begun x.events x.stop
    → finish start x result ≡ ok r
    → IsWithin r.total r.timing
unfolding finish
finish-IsWithin start x (err e) r h p = cc
finish-IsWithin {E} start x (ok resp) r h p =
    let same : with_total start x resp ≡ r = cc in rw (← same) (with_total-IsWithin start x resp h)

-- When the callbacks come in the order of the clock and no phase is done before it has begun, the
-- time to first byte and the times of the three phases are at most the total of the request.
pub execute_with_metrics-IsWithin :
    {E : Type 0} (start : ℕ) (x : Exchange E) (r : ResponseMetrics)
    → IsOrdered start not_begun x.events x.stop
    → execute_with_metrics start x ≡ ok r
    → IsWithin r.total r.timing
unfolding execute_with_metrics
execute_with_metrics-IsWithin start x r h = finish-IsWithin start x x.result r h
