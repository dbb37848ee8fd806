-- ===== src/Generator/RampUp.antt =====
-- pkg/generator/generator.go: `rampUp` of both generators, and `run`, which calls it.
pub mod Laws
use knative_benchmark.Prelude.{
  ℕ, zero, suc, Bool, true, false, List, [], ◌∷◌, ◌++◌, Option, none, some, if◌then◌else◌, ℤ, pos,
  ltb_ℤ, Float,
}
use knative_benchmark.Config.{Target, Config}
use knative_benchmark.Generator.State.{
  with_ticker, Gen, Exit, waiting, stopped, complete, duration_reached, failed, Wake, launch,
}
use knative_benchmark.Generator.Loop.{run_loop, max_loop}

-- What wakes a step of the ramp-up up: the context, the timer of one second, or a tick with the
-- error of the step's limiter, if there is one.
pub data StepWake (E : Type 0) : Type 0 where
  done timer : StepWake E
  tick : Option E → StepWake E

-- A step finds the context cancelled or not, and then has its wake-ups.
abbrev pub StepSchedule : Type 0 → Type 0
StepSchedule E = Bool × List (StepWake E)

-- The inner loop, `stepLoop`; `complete` is its `break`.
unfoldable pub step_loop : {F E : Type 0} → List Target → List (StepWake E) → Gen F → Exit E × Gen F
unfolding launch
step_loop ts [] g = (waiting, g)
step_loop ts (done ∷ ws) g = (stopped, g)
step_loop ts (timer ∷ ws) g = (complete, g)
step_loop ts (tick (some e) ∷ ws) g = (failed e, g)
step_loop ts (tick none ∷ ws) g = step_loop ts ws (launch ts g)

-- The next step follows a step that was not left by a `return`.
unfoldable pub next_step :
    {F E : Type 0} → (Gen F → Exit E × Gen F) → Exit E × Gen F → Exit E × Gen F
next_step go (complete, g) = go g
next_step go (exit, g) = (exit, g)

module _ (fl : Float) where
  open fl use {F, of_ℕ, add, sub, div, eq, lt, le, to_int}

  -- The burst of a limiter, at least 1.
  unfoldable pub burst_size : F → ℤ
  burst_size rate = let b = to_int rate in if ltb_ℤ b (pos 1) then pos 1 else b

  unfoldable pub begin_step : F → Gen F → Gen F
  unfolding burst_size
  begin_step rate g = record g {
    current_rate = rate;
    limiters = g.limiters ++ (rate, burst_size rate) ∷ [];
  }

  -- The outer loop with `n` steps left. A schedule that ends early leaves it waiting.
  unfoldable pub ramp_steps :
      {E : Type 0} → List Target → ℕ → F → F → List (StepSchedule E) → Gen F → Exit E × Gen F
  unfolding begin_step next_step
  ramp_steps ts zero rate increment sch g = (complete, g)
  ramp_steps ts (suc n) rate increment [] g = (waiting, g)
  ramp_steps ts (suc n) rate increment ((true, ws) ∷ sch) g = (stopped, g)
  ramp_steps ts (suc n) rate increment ((false, ws) ∷ sch) g =
      let rate' = add rate increment in
      next_step (ramp_steps ts n rate' increment sch) (step_loop ts ws (begin_step rate' g))

  abbrev pub steps : ℕ
  steps = 15

  unfoldable pub ramp_up : {E : Type 0} → Config F → List (StepSchedule E) → Gen F → Exit E × Gen F
  unfolding ramp_steps
  ramp_up cfg sch g =
      let rps = cfg.rate.requests_per_second in
      if le rps (of_ℕ 1)
      then (complete, g)
      else ramp_steps cfg.targets steps (of_ℕ 1) (div (sub rps (of_ℕ 1)) (of_ℕ steps)) sch g

  -- The ramp-up ended with no error (`complete` or `stopped`), failed, or still runs.
  abbrev after_ramp : {E : Type 0} → Config F → List (Wake E) → Exit E × Gen F → Exit E × Gen F
  after_ramp cfg ws (failed e, g) = (failed e, g)
  after_ramp cfg ws (waiting, g) = (waiting, g)
  after_ramp cfg ws (_, g) = with_ticker fl cfg (run_loop cfg ws g) g

  -- `run`: what wakes its parts up are three schedules.
  unfoldable pub run :
      {E : Type 0}
      → Config F
      → List (StepSchedule E)
      → List (Wake E)
      → List (Option ℤ)
      → Gen F
      → Exit E × Gen F
  unfolding ramp_up run_loop max_loop
  run cfg sch ws polls g =
      let rps = cfg.rate.requests_per_second in
      if eq rps (of_ℕ 0)
      then max_loop cfg polls g
      else if lt (of_ℕ 1) rps
      then after_ramp cfg ws (ramp_up cfg sch g)
      else with_ticker fl cfg (run_loop cfg ws g) g
