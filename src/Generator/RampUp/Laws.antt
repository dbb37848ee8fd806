-- ===== src/Generator/RampUp/Laws.antt =====
-- pkg/generator/generator.go: the limiters of the steps of `rampUp`.
use knative_benchmark.Prelude.{
  ℕ, zero, suc, ◌≡◌, refl, sym, ap, ◌∙◌, true, false, List, [], ◌∷◌, ◌++◌, append_assoc, append-nil,
  none, some, ℤ, pos, ltb_ℤ, All, All-append, Bool-cases, inl, inr, Float,
}
use knative_benchmark.Config.{Target, Config}
use knative_benchmark.Generator.State.{
  Gen, Exit, waiting, stopped, duration_reached, panicked, failed, complete, launch, launch_lem,
}
use knative_benchmark.Generator.RampUp.{
  StepWake, done, timer, tick, StepSchedule, step_loop, next_step, burst_size, begin_step,
  ramp_steps, ramp_up,
}

limiters-launch : {F : Type 0} (ts : List Target) (g : Gen F) → (launch ts g).limiters ≡ g.limiters
limiters-launch ts g = rw launch_lem

limiters-step_loop :
    {F E : Type 0} (ts : List Target) (ws : List (StepWake E)) (g : Gen F)
    → (step_loop ts ws g).1.limiters ≡ g.limiters
unfolding step_loop
limiters-step_loop ts [] g = refl
limiters-step_loop ts (done ∷ ws) g = refl
limiters-step_loop ts (timer ∷ ws) g = refl
limiters-step_loop ts (tick (some e) ∷ ws) g = refl
limiters-step_loop ts (tick none ∷ ws) g =
    limiters-step_loop ts ws (launch ts g) ∙ limiters-launch ts g

-- A completed chain of steps completed its first step.
next_step-complete :
    {F E : Type 0} (go : Gen F → Exit E × Gen F) (x : Exit E × Gen F)
    → (next_step go x).0 ≡ complete
    → (next_step go x ≡ go x.1) × ((go x.1).0 ≡ complete)
unfolding next_step
next_step-complete go (complete, g) h = (refl, h)
next_step-complete go (waiting, g) h = cc
next_step-complete go (stopped, g) h = cc
next_step-complete go (duration_reached, g) h = cc
next_step-complete go (panicked, g) h = cc
next_step-complete go (failed e, g) h = cc

next_step-keeps :
    {F E : Type 0} (P : Gen F → Type 0) (go : Gen F → Exit E × Gen F) (x : Exit E × Gen F)
    → P x.1
    → P (go x.1).1
    → P (next_step go x).1
unfolding next_step
next_step-keeps P go (complete, g) h k = k
next_step-keeps P go (panicked, g) h k = h
next_step-keeps P go (waiting, g) h k = h
next_step-keeps P go (stopped, g) h k = h
next_step-keeps P go (duration_reached, g) h k = h
next_step-keeps P go (failed e, g) h k = h

module _ (fl : Float) where
  open fl use {F, of_ℕ, add, sub, div, eq, lt, le, to_int}

  -- The limiters of `n` steps: each rate is the one before and the increment.
  abbrev pub plan : ℕ → F → F → List (F × ℤ)
  plan zero rate increment = []
  plan (suc n) rate increment =
      let rate' = add rate increment in (rate', burst_size fl rate') ∷ plan n rate' increment

  ramp_steps-plan :
      {E : Type 0} (ts : List Target) (n : ℕ) (rate increment : F) (sch : List (StepSchedule E))
      (g : Gen F)
      → (ramp_steps fl ts n rate increment sch g).0 ≡ complete
      → (ramp_steps fl ts n rate increment sch g).1.limiters ≡ g.limiters ++ plan n rate increment
  unfolding ramp_steps
  ramp_steps-plan ts zero rate increment sch g e = sym (append-nil g.limiters)
  ramp_steps-plan ts (suc n) rate increment [] g e = cc
  ramp_steps-plan ts (suc n) rate increment ((true, ws) ∷ sch) g e = cc
  ramp_steps-plan {E} ts (suc n) rate increment ((false, ws) ∷ sch) g e =
      let rate' = add rate increment in
      let x = step_loop ts ws (begin_step fl rate' g) in
      let go = ramp_steps fl {E = E} ts n rate' increment sch in
      let (same, done_too) = next_step-complete go x e in
      ap (λ r. r.1.limiters) same
      ∙ ramp_steps-plan ts n rate' increment sch x.1 done_too
      ∙ ap (λ l. l ++ plan n rate' increment) (limiters-step_loop ts ws (begin_step fl rate' g))
      ∙ (unfold begin_step in append_assoc g.limiters _ (plan n rate' increment))

  -- A ramp-up that ran to its end for more than one request per second made one limiter for each of
  -- its fifteen steps, the first with the rate 1 and the increment, and each later one with the
  -- rate before it and the increment, (rps - 1) / 15.
  pub ramp_up-plan :
      {E : Type 0} (cfg : Config F) (sch : List (StepSchedule E)) (g : Gen F)
      → le cfg.rate.requests_per_second (of_ℕ 1) ≡ false
      → (ramp_up fl cfg sch g).0 ≡ complete
      → (ramp_up fl cfg sch g).1.limiters
        ≡ g.limiters ++ plan 15 (of_ℕ 1) (div (sub cfg.rate.requests_per_second (of_ℕ 1)) (of_ℕ 15))
  unfolding ramp_up
  ramp_up-plan cfg sch g fast e =
      rw fast (ramp_steps-plan cfg.targets 15 (of_ℕ 1) _ sch g (rw fast at e))

  -- Every limiter has a burst of 1 at least, so that it lets a request pass.
  abbrev pub HasBurst : F × ℤ → Type 0
  HasBurst l = ltb_ℤ l.1 (pos 1) ≡ false

  burst_size-HasBurst : (rate : F) → HasBurst (rate, burst_size fl rate)
  unfolding burst_size
  burst_size-HasBurst rate = elim (Bool-cases (ltb_ℤ (to_int rate) (pos 1))) [
    | inl low ↦ rw low refl
    | inr high ↦ rw high high
  ]

  ramp_steps-HasBurst :
      {E : Type 0} (ts : List Target) (n : ℕ) (rate increment : F) (sch : List (StepSchedule E))
      (g : Gen F)
      → All HasBurst g.limiters
      → All HasBurst (ramp_steps fl ts n rate increment sch g).1.limiters
  unfolding ramp_steps
  ramp_steps-HasBurst ts zero rate increment sch g h = h
  ramp_steps-HasBurst ts (suc n) rate increment [] g h = h
  ramp_steps-HasBurst ts (suc n) rate increment ((true, ws) ∷ sch) g h = h
  ramp_steps-HasBurst {E} ts (suc n) rate increment ((false, ws) ∷ sch) g h =
      let rate' = add rate increment in
      let x = step_loop ts ws (begin_step fl rate' g) in
      let begun : All HasBurst x.1.limiters =
        rw limiters-step_loop (
          unfold begin_step in
          All-append HasBurst g.limiters _ h (burst_size-HasBurst rate', tt)) in
      next_step-keeps (λ s. All HasBurst s.limiters)
        (ramp_steps fl {E = E} ts n rate' increment sch) x begun
        (ramp_steps-HasBurst ts n rate' increment sch x.1 begun)

  -- However the ramp-up ends, every limiter has a burst of 1 at least, if those that were there
  -- before have.
  ramp_up-HasBurst :
      {E : Type 0} (cfg : Config F) (sch : List (StepSchedule E)) (g : Gen F)
      → All HasBurst g.limiters
      → All HasBurst (ramp_up fl cfg sch g).1.limiters
  unfolding ramp_up
  ramp_up-HasBurst cfg sch g h = elim (Bool-cases (le cfg.rate.requests_per_second (of_ℕ 1))) [
    | inl slow ↦ rw slow h
    | inr fast ↦ rw fast (ramp_steps-HasBurst cfg.targets 15 (of_ℕ 1) _ sch g h)
  ]
