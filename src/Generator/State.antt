-- ===== src/Generator/State.antt =====
-- pkg/generator/generator.go: the state of a generator, and what its loops share.
use knative_benchmark.Prelude.{
  if◌then◌else◌, Float, ℕ, zero, suc, ◌*◌, ◌≡◌, Bool, true, ◌&&◌, List, [], ◌∷◌, ◌++◌, append_assoc,
  append-nil, Option, length, length-append, arith, ℤ, pos, ltb_ℤ,
}
use knative_benchmark.Config.{Target, Config}

-- The requests that were started, in order; whether the context is cancelled; the rate of the
-- ramp-up, and the limiters that it made, with their rates and bursts.
pub record Gen (F : Type 0) : Type 0 where
  pub cancelled : Bool
  pub launched : List Target
  pub current_rate : F
  pub limiters : List (F × ℤ)

-- How a loop ends; `waiting` is a loop that still runs when the schedule ends, and `panicked` one whose
-- ticker cannot be made.
pub data Exit (E : Type 0) : Type 0 where
  waiting stopped duration_reached complete panicked : Exit E
  failed : E → Exit E

-- What wakes a loop up. A tick comes with the limiter's error, if there is one, and with the time
-- since the start when the requests of the round are started.
pub data Wake (E : Type 0) : Type 0 where
  done : Wake E
  tick : Option E → ℤ → Wake E

-- `time.NewTicker` panics unless the interval, a second divided by the rate, is positive.
unfoldable pub can_tick : (fl : Float) → Config fl.F → Bool
can_tick fl cfg =
    ltb_ℤ (pos 0) (fl.to_int (fl.div (fl.of_ℕ 1000000000) cfg.rate.requests_per_second))

abbrev pub with_ticker :
    (fl : Float) {E : Type 0} → Config fl.F → Exit E × Gen fl.F → Gen fl.F → Exit E × Gen fl.F
with_ticker fl cfg looped g = if can_tick fl cfg then looped else (panicked, g)

module _ {F : Type 0} where
  -- `for _, target := range targets { go … }`
  unfoldable pub launch : List Target → Gen F → Gen F
  launch [] g = g
  launch (t ∷ ts) g = launch ts (record g { launched = g.launched ++ t ∷ [] })

  -- `Stop`. The goroutines that it waits for end with their requests.
  unfoldable pub stop : Gen F → Gen F
  stop g = record g { cancelled = true }

  -- The test of the duration: 0 is no limit.
  unfoldable pub is_due : Config F → ℤ → Bool
  is_due cfg elapsed = ltb_ℤ (pos 0) cfg.rate.duration && ltb_ℤ cfg.rate.duration elapsed

  pub launch_lem :
      (ts : List Target) (g : Gen F) → launch ts g ≡ record g { launched = g.launched ++ ts }
  unfolding launch
  launch_lem [] g = rw append-nil
  launch_lem (t ∷ ts) g = rw (launch_lem ts) (rw append_assoc)

-- `n` rounds over the targets.
abbrev pub rounds : ℕ → List Target → List Target
rounds zero ts = []
rounds (suc n) ts = ts ++ rounds n ts

pub length-rounds : (n : ℕ) (ts : List Target) → length (rounds n ts) ≡ n * length ts
length-rounds zero ts = omega arith
length-rounds (suc n) ts = grind (arith, length-append ts (rounds n ts), length-rounds n ts)
