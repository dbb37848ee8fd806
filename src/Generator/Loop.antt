-- ===== src/Generator/Loop.antt =====
-- pkg/generator/generator.go: `run` after the ramp-up, `runMaxThroughput` and `runColdStart`, as
-- functions of the schedule that wakes them.
pub mod Laws
use knative_benchmark.Prelude.{
  ◌+◌, pos, ℕ, Bool, List, [], ◌∷◌, Option, none, some, if◌then◌else◌, ℤ, arith, Float, Text,
}
use knative_benchmark.Config.{Target, Config}
use knative_benchmark.Generator.Request.{Fetch, Entry, send_request}
use knative_benchmark.Generator.State.{
  with_ticker, can_tick, Gen, Exit, waiting, stopped, duration_reached, failed, Wake, done, tick,
  launch, stop, is_due,
}

-- The time that a round takes: `took` is that of a request, and each is followed by a sleep of seven
-- seconds.
unfoldable pub round_time : (Target → ℕ) → List Target → ℕ
round_time took [] = 0
round_time took (t ∷ ts) = took t + 7000000000 + round_time took ts

module _ {F E : Type 0} (cfg : Config F) where
  -- The `for { select … }` of `run`.
  unfoldable pub run_loop : List (Wake E) → Gen F → Exit E × Gen F
  unfolding launch stop is_due
  run_loop [] g = (waiting, g)
  run_loop (done ∷ ws) g = (stopped, g)
  run_loop (tick (some e) elapsed ∷ ws) g = (failed e, g)
  run_loop (tick none elapsed ∷ ws) g =
      let g' = launch cfg.targets g in
      let rest = run_loop ws g' in if is_due cfg elapsed then (duration_reached, stop g') else rest

  -- `runMaxThroughput` asks no limiter: a round has no error.
  unfoldable pub max_loop : List (Option ℤ) → Gen F → Exit E × Gen F
  unfolding launch stop is_due
  max_loop [] g = (waiting, g)
  max_loop (none ∷ ws) g = (stopped, g)
  max_loop (some elapsed ∷ ws) g =
      let g' = launch cfg.targets g in
      let rest = max_loop ws g' in if is_due cfg elapsed then (duration_reached, stop g') else rest

  -- The loop of `runColdStart`, which sends the requests of a round one after the other; an error is
  -- logged. A tick comes with the time since the start and what each request takes.
  unfoldable pub cold_loop : List (Option (ℕ × (Target → ℕ))) → Gen F → Exit E × Gen F
  unfolding launch stop is_due round_time
  cold_loop [] g = (waiting, g)
  cold_loop (none ∷ ws) g = (stopped, g)
  cold_loop (some (at_tick, took) ∷ ws) g =
      let g' = launch cfg.targets g in
      let elapsed = pos (at_tick + round_time took cfg.targets) in
      let rest = cold_loop ws g' in if is_due cfg elapsed then (duration_reached, stop g') else rest

unfoldable pub run_cold_start :
    (fl : Float) {E : Type 0}
    → Config fl.F
    → List (Option (ℕ × (Target → ℕ)))
    → Gen fl.F
    → Exit E × Gen fl.F
unfolding can_tick cold_loop
run_cold_start fl cfg ws g = with_ticker fl cfg (cold_loop cfg ws g) g
