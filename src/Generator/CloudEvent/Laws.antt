-- ===== src/Generator/CloudEvent/Laws.antt =====
-- pkg/generator/generator.go: the loop of `cloudEventGenerator.run`.
use knative_benchmark.Prelude.{
  ℕ, suc, ◌≤◌, ◌≡◌, refl, sym, ◌∙◌, List, [], ◌∷◌, ◌++◌, append_assoc, append-nil, length, Option,
  none, some, ℤ, arith, Bool-cases, false, inl, inr, Float,
}
use knative_benchmark.Config.{Target, Config}
use knative_benchmark.Generator.State.{
  Gen, Exit, waiting, stopped, complete, duration_reached, panicked, failed, can_tick, launch, stop,
  is_due, rounds,
}
use knative_benchmark.Generator.RampUp.{StepSchedule}
use knative_benchmark.Generator.CloudEvent.{
  event_loop, first_target_loop, ticker_loop, after_event_ramp, event_ramp_up, event_run,
}

-- Whatever its schedule, the loop of the event generator sends events to the one target that it is
-- given, at most one on each wake-up.
pub event_loop-rounds :
    {F : Type 0} (E : Type 0) (cfg : Config F) (t : Target) (ws : List (Option ℤ)) (g : Gen F)
    → (k : ℕ) × ((event_loop {E = E} cfg t ws g).1.launched ≡ g.launched ++ rounds k (t ∷ []))
      × (k ≤ length ws)
unfolding event_loop stop
event_loop-rounds E cfg t [] g = (0, sym (append-nil g.launched), omega arith)
event_loop-rounds E cfg t (none ∷ ws) g = (0, sym (append-nil g.launched), omega arith)
event_loop-rounds E cfg t (some elapsed ∷ ws) g = elim (Bool-cases (is_due cfg elapsed)) [
  | inl due ↦ (1, rw due, omega arith)
  | inr go_on ↦
      let (k, same, few) = event_loop-rounds E cfg t ws (launch (t ∷ []) g) in
      (
        suc k,
        rw go_on (same ∙ (unfold launch in append_assoc g.launched (t ∷ []) (rounds k (t ∷ [])))),
        omega arith,
      )
]

-- With a target the loop is begun, or the ticker panics.
ticker_loop-some :
    (fl : Float) {E : Type 0} (cfg : Config fl.F) (t : Target) (ts : List Target)
    (ws : List (Option ℤ)) (g : Gen fl.F)
    → cfg.targets ≡ t ∷ ts
    → (q : Exit E × Gen fl.F) × (ticker_loop fl {E = E} cfg ws g ≡ some q)
      × ((k : ℕ) × (q.1.launched ≡ g.launched ++ rounds k (t ∷ [])) × (k ≤ length ws))
unfolding ticker_loop first_target_loop
ticker_loop-some fl {E} cfg t ts ws g h = elim (Bool-cases (can_tick fl cfg)) [
  | inl ticks ↦
      rw ticks (rw h (event_loop {E = E} cfg t ws g, refl, event_loop-rounds E cfg t ws g))
  | inr never ↦ rw never ((panicked, g), refl, (0, sym (append-nil g.launched), omega arith))
]

after_event_ramp-some :
    (fl : Float) {E : Type 0} (cfg : Config fl.F) (t : Target) (ts : List Target)
    (ws : List (Option ℤ)) (r : Exit E × Gen fl.F)
    → cfg.targets ≡ t ∷ ts
    → (q : Exit E × Gen fl.F) × (after_event_ramp fl cfg ws r ≡ some q)
unfolding after_event_ramp
after_event_ramp-some fl cfg t ts ws (failed e, g) h = (_, refl)
after_event_ramp-some fl cfg t ts ws (waiting, g) h = (_, refl)
after_event_ramp-some fl cfg t ts ws (stopped, g) h =
    let (q, same, sent) = ticker_loop-some fl cfg t ts ws g h in (q, same)
after_event_ramp-some fl cfg t ts ws (complete, g) h =
    let (q, same, sent) = ticker_loop-some fl cfg t ts ws g h in (q, same)
after_event_ramp-some fl cfg t ts ws (duration_reached, g) h =
    let (q, same, sent) = ticker_loop-some fl cfg t ts ws g h in (q, same)
after_event_ramp-some fl cfg t ts ws (panicked, g) h =
    let (q, same, sent) = ticker_loop-some fl cfg t ts ws g h in (q, same)

pub event_run-some :
    (fl : Float) {E : Type 0} (cfg : Config fl.F) (t : Target) (ts : List Target)
    (sch : List (StepSchedule E)) (ws : List (Option ℤ)) (g : Gen fl.F)
    → cfg.targets ≡ t ∷ ts
    → (q : Exit E × Gen fl.F) × (event_run fl cfg sch ws g ≡ some q)
unfolding event_run
event_run-some fl {E} cfg t ts sch ws g h =
    elim (Bool-cases (fl.lt (fl.of_ℕ 1) cfg.rate.requests_per_second)) [
      | inl fast ↦ rw fast (after_event_ramp-some fl cfg t ts ws (event_ramp_up fl cfg sch g) h)
      | inr slow ↦
          let (q, same, sent) = ticker_loop-some fl {E = E} cfg t ts ws g h in rw slow (q, same)
    ]

-- Up to one event per second there is no ramp-up, and only the first target is sent to.
pub event_run-slow :
    (fl : Float) {E : Type 0} (cfg : Config fl.F) (t : Target) (ts : List Target)
    (sch : List (StepSchedule E)) (ws : List (Option ℤ)) (g : Gen fl.F)
    → cfg.targets ≡ t ∷ ts
    → fl.lt (fl.of_ℕ 1) cfg.rate.requests_per_second ≡ false
    → (q : Exit E × Gen fl.F) × (event_run fl cfg sch ws g ≡ some q)
      × ((k : ℕ) × (q.1.launched ≡ g.launched ++ rounds k (t ∷ [])) × (k ≤ length ws))
unfolding event_run
event_run-slow fl cfg t ts sch ws g h slow = rw slow (ticker_loop-some fl cfg t ts ws g h)
