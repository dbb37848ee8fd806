-- ===== src/Pool/Trace/Order.antt =====
-- pkg/connection/pool.go: in which order the callbacks of the trace may come.
use knative_benchmark.Prelude.{ℕ, ◌≤◌, ◌≡◌, List, [], ◌∷◌, Bool, true, false}
use knative_benchmark.Pool.Trace.{
  TraceEvent, dns_start, dns_done, connect_start, connect_done, tls_start, tls_done, first_byte,
}

-- Which phases have begun.
pub record Begun : Type 0 where
  pub dns : Bool
  pub connect : Bool
  pub tls : Bool

abbrev pub time_of : TraceEvent → ℕ
time_of (dns_start t) = t
time_of (dns_done t) = t
time_of (connect_start t) = t
time_of (connect_done t) = t
time_of (tls_start t) = t
time_of (tls_done t) = t
time_of (first_byte t) = t

-- A phase is done only after it has begun.
abbrev pub MayHappen : Begun → TraceEvent → Type 0
MayHappen b (dns_done t) = b.dns ≡ true
MayHappen b (connect_done t) = b.connect ≡ true
MayHappen b (tls_done t) = b.tls ≡ true
MayHappen b _ = Unit

abbrev pub begin_phase : Begun → TraceEvent → Begun
begin_phase b (dns_start t) = record b { dns = true }
begin_phase b (connect_start t) = record b { connect = true }
begin_phase b (tls_start t) = record b { tls = true }
begin_phase b _ = b

-- The callbacks come in the order of the clock, from `now` to `stop`.
abbrev pub IsOrdered : ℕ → Begun → List TraceEvent → ℕ → Type 0
IsOrdered now b [] stop = now ≤ stop
IsOrdered now b (e ∷ es) stop =
    MayHappen b e × (now ≤ time_of e) × IsOrdered (time_of e) (begin_phase b e) es stop

abbrev pub not_begun : Begun
not_begun = record { dns = false; connect = false; tls = false }
