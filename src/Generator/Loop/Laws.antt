-- ===== src/Generator/Loop/Laws.antt =====
-- pkg/generator/generator.go: how many requests the loops start, and how they end.
use knative_benchmark.Prelude.{
  ℕ, zero, suc, ◌≤◌, ◌≡◌, ◌≢◌, sym, ap, ◌∙◌, true, false, List, [], ◌∷◌, ◌++◌, append_assoc,
  append-nil, length, Option, none, some, ℤ, pos, ltb_ℤ, arith, All, Bool-cases, inl, inr,
}
use knative_benchmark.Config.{Target, Config}
use knative_benchmark.Generator.State.{
  Gen, duration_reached, Wake, done, tick, launch, launch_lem, stop, is_due, rounds,
}
use knative_benchmark.Generator.Loop.{run_loop}

-- The state after `n` rounds over the targets.
abbrev pub after : {F : Type 0} → List Target → ℕ → Gen F → Gen F
after ts n g = record g { launched = g.launched ++ rounds n ts }

after-zero : {F : Type 0} (ts : List Target) (g : Gen F) → after ts 0 g ≡ g
after-zero ts g = rw append-nil

after-suc :
    {F : Type 0} (ts : List Target) (n : ℕ) (g : Gen F)
    → after ts n (launch ts g) ≡ after ts (suc n) g
after-suc ts n g = rw launch_lem (rw append_assoc)

rounds_last : (n : ℕ) (ts : List Target) → rounds n ts ++ ts ≡ ts ++ rounds n ts
rounds_last zero ts = sym (append-nil ts)
rounds_last (suc n) ts = append_assoc ts (rounds n ts) ts ∙ ap (λ r. ts ++ r) (rounds_last n ts)

launch-after :
    {F : Type 0} (ts : List Target) (n : ℕ) (g : Gen F)
    → launch ts (after ts n g) ≡ after ts (suc n) g
launch-after ts n g =
    launch_lem ts (after ts n g)
    ∙ ap (λ l. record g { launched = l })
        (append_assoc g.launched (rounds n ts) ts ∙ ap (λ r. g.launched ++ r) (rounds_last n ts))

one_more :
    {F : Type 0} (ts : List Target) (k : ℕ) (g : Gen F)
    → (launch ts g).launched ++ rounds k ts ≡ g.launched ++ rounds (suc k) ts
one_more ts k g = rw launch_lem (append_assoc g.launched ts (rounds k ts))

-- A wake-up of the loops that have no limiter.
abbrev pub as_wake : {E : Type 0} → Option ℤ → Wake E
as_wake none = done
as_wake (some elapsed) = tick none elapsed

module _ {F E : Type 0} (cfg : Config F) where
  -- A tick on which the loop starts requests and goes on.
  abbrev pub IsServed : Wake E → Type 0
  IsServed done = ⊥
  IsServed (tick (some e) elapsed) = ⊥
  IsServed (tick none elapsed) = is_due cfg elapsed ≡ false

  run_loop-served :
      (ticks ws : List (Wake E)) (g : Gen F)
      → All IsServed ticks
      → run_loop cfg (ticks ++ ws) g ≡ run_loop cfg ws (after cfg.targets (length ticks) g)
  unfolding run_loop
  run_loop-served [] ws g _ = rw append-nil
  run_loop-served (done ∷ ticks) ws g (h, hs) = absurd h
  run_loop-served (tick (some e) elapsed ∷ ticks) ws g (h, hs) = absurd h
  run_loop-served (tick none elapsed ∷ ticks) ws g (h, hs) = rw h (
      run_loop-served ticks ws (launch cfg.targets g) hs
      ∙ ap (run_loop cfg ws) (after-suc cfg.targets (length ticks) g))

  -- After any number of ticks on which the limiter gives no error and the duration is not passed,
  -- the first tick at which it is passed ends the loop, whatever would come later: the context is
  -- cancelled, and one request was started for each target on each tick, this one included, in the
  -- order of the targets.
  pub run_loop-duration_reached :
      (ticks rest : List (Wake E)) (elapsed : ℤ) (g : Gen F)
      → All IsServed ticks
      → is_due cfg elapsed ≡ true
      → run_loop cfg (ticks ++ tick none elapsed ∷ rest) g
        ≡ (duration_reached, stop (after cfg.targets (suc (length ticks)) g))
  run_loop-duration_reached ticks rest elapsed g hs due =
      run_loop-served ticks (tick none elapsed ∷ rest) g hs
      ∙ (unfold run_loop in
          rw due (ap (λ s. (duration_reached, stop s)) (launch-after cfg.targets (length ticks) g)))

  -- Whatever wakes it, the loop starts whole rounds over the targets, in their order, and at most
  -- one round on each wake-up.
  pub run_loop-rounds :
      (ws : List (Wake E)) (g : Gen F)
      → (k : ℕ) × ((run_loop cfg ws g).1.launched ≡ g.launched ++ rounds k cfg.targets)
        × (k ≤ length ws)
  unfolding run_loop stop
  run_loop-rounds [] g = (0, sym (append-nil g.launched), omega arith)
  run_loop-rounds (done ∷ ws) g = (0, sym (append-nil g.launched), omega arith)
  run_loop-rounds (tick (some e) elapsed ∷ ws) g = (0, sym (append-nil g.launched), omega arith)
  run_loop-rounds (tick none elapsed ∷ ws) g = elim (Bool-cases (is_due cfg elapsed)) [
    | inl due ↦ (1, rw due (rw launch_lem (rw append-nil)), omega arith)
    | inr go_on ↦
        let (k, same, few) = run_loop-rounds ws (launch cfg.targets g) in
        (suc k, rw go_on (same ∙ one_more cfg.targets k g), omega arith)
  ]

  -- With a duration of 0 or less the loop never ends because of the duration.
  run_loop-no_duration :
      (ws : List (Wake E)) (g : Gen F)
      → ltb_ℤ (pos 0) cfg.rate.duration ≡ false
      → (run_loop cfg ws g).0 ≢ duration_reached
  unfolding run_loop is_due
  run_loop-no_duration [] g h = ground arith
  run_loop-no_duration (done ∷ ws) g h = ground arith
  run_loop-no_duration (tick (some e) elapsed ∷ ws) g h = ground arith
  run_loop-no_duration (tick none elapsed ∷ ws) g h =
      rw h (run_loop-no_duration ws (launch cfg.targets g) h)
