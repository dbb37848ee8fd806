-- ===== src/Generator/CloudEvent.antt =====
-- pkg/generator/generator.go: `cloudEventGenerator.run`. Its `rampUp` is the one of `generator`.
pub mod Laws
use knative_benchmark.Prelude.{
  ℕ, Bool, true, false, List, [], ◌∷◌, Option, none, some, if◌then◌else◌, ℤ, Float,
}
use knative_benchmark.Config.{Target, Config}
use knative_benchmark.Generator.State.{
  panicked, can_tick, Gen, Exit, waiting, stopped, complete, duration_reached, failed, launch, stop,
  is_due,
}
use knative_benchmark.Generator.RampUp.{StepSchedule, ramp_up}

-- The `for { select … }`: a tick, with the time since the start, sends one event to `target`. There
-- is no limiter.
unfoldable pub event_loop :
    {F E : Type 0} → Config F → Target → List (Option ℤ) → Gen F → Exit E × Gen F
unfolding launch stop is_due
event_loop cfg target [] g = (waiting, g)
event_loop cfg target (none ∷ ws) g = (stopped, g)
event_loop cfg target (some elapsed ∷ ws) g =
    let g' = launch (target ∷ []) g in
    let rest = event_loop cfg target ws g' in
    if is_due cfg elapsed then (duration_reached, stop g') else rest

-- `c.cfg.Targets[0]` panics, `none`, if there is no target.
unfoldable pub first_target_loop :
    {F E : Type 0} → Config F → List Target → List (Option ℤ) → Gen F → Option (Exit E × Gen F)
unfolding event_loop
first_target_loop cfg [] ws g = none
first_target_loop cfg (t ∷ ts) ws g = some (event_loop cfg t ws g)

unfoldable pub ticker_loop :
    (fl : Float) {E : Type 0}
    → Config fl.F
    → List (Option ℤ)
    → Gen fl.F
    → Option (Exit E × Gen fl.F)
unfolding first_target_loop can_tick
ticker_loop fl cfg ws g =
    if can_tick fl cfg then first_target_loop cfg cfg.targets ws g else some (panicked, g)

after_event_ramp :
    (fl : Float) {E : Type 0}
    → Config fl.F
    → List (Option ℤ)
    → Exit E × Gen fl.F
    → Option (Exit E × Gen fl.F)
unfolding ticker_loop
after_event_ramp fl cfg ws (failed e, g) = some (failed e, g)
after_event_ramp fl cfg ws (waiting, g) = some (waiting, g)
after_event_ramp fl cfg ws (_, g) = ticker_loop fl cfg ws g

-- `cloudEventGenerator.rampUp` repeats `generator.rampUp`.
abbrev pub event_ramp_up :
    (fl : Float) {E : Type 0} → Config fl.F → List (StepSchedule E) → Gen fl.F → Exit E × Gen fl.F
event_ramp_up fl = ramp_up fl

unfoldable pub event_run :
    (fl : Float) {E : Type 0}
    → Config fl.F
    → List (StepSchedule E)
    → List (Option ℤ)
    → Gen fl.F
    → Option (Exit E × Gen fl.F)
unfolding after_event_ramp ticker_loop
event_run fl cfg sch ws g =
    if fl.lt (fl.of_ℕ 1) cfg.rate.requests_per_second
    then after_event_ramp fl cfg ws (event_ramp_up fl cfg sch g)
    else ticker_loop fl cfg ws g

-- `runColdStart` and `StartColdStart` of this generator do nothing and return nil.
abbrev pub event_cold_start : {F E : Type 0} → Gen F → Exit E × Gen F
event_cold_start g = (complete, g)
