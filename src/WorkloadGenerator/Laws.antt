-- ===== src/WorkloadGenerator/Laws.antt =====
-- cmd/workload-generator/main.go: when a generator is started, and with what.
use knative_benchmark.Prelude.{
  codes, ◌≡◌, ◌≢◌, ◌↔◌, ◌⊎◌, inl, inr, refl, Bool, true, false, List, [], ◌∷◌, ◌++◌, none, some,
  Result, ok, err, Text, is_empty, Float, All, Bool-cases, if◌then◌else◌,
}
use knative_benchmark.Store.{log_file_path, log_file_writer}
use knative_benchmark.Config.{Target, Config, load}
use knative_benchmark.Pool.Trace.{ResponseMetrics}
use knative_benchmark.Generator.State.{
  Gen, Exit, waiting, stopped, complete, duration_reached, panicked, failed,
}
use knative_benchmark.Generator.Loop.{run_cold_start}
use knative_benchmark.Generator.RampUp.{run}
use knative_benchmark.Generator.CloudEvent.Laws.{event_run-some}
use knative_benchmark.WorkloadGenerator.{
  Flags, Line, World, Run, after_answer, ping, finish, finish_or_panic, panic, event_to, event_mode,
  run_mode, after_ping, pool_of, override, after_load, after_open, main, new_event_generator,
  new_generator, loading, loaded, overriding, cold_start_failed, generator_failed, initialized,
}

abbrev IsOk : {E A : Type 0} → Result E A → Type 0
IsOk {A} r = (a : A) × (r ≡ ok a)

-- Each of the targets answers.
abbrev pub Answer : {E : Type 0} → (Target → Result E ResponseMetrics) → List Target → Type 0
Answer get = All (λ t. IsOk (get t))

after_answer-true :
    {F E : Type 0} (rest : List (Line F E) → Bool × List (Line F E)) (t : Target)
    (r : Result E ResponseMetrics) (log : List (Line F E)) (P : Type 0)
    → ((l : List (Line F E)) → ((rest l).0 ≡ true) ↔ P)
    → ((after_answer rest t.url r log).0 ≡ true) ↔ (IsOk r × P)
unfolding after_answer
after_answer-true rest t (err e) log P h = (λ e. cc, λ (r, p). cc)
after_answer-true rest t (ok r) log P h = (λ e. ((r, refl), (h _).0 e), λ (r, p). (h _).1 p)

ping-true :
    {F E : Type 0} (get : Target → Result E ResponseMetrics) (ts : List Target)
    (log : List (Line F E))
    → ((ping get ts log).0 ≡ true) ↔ Answer get ts
unfolding ping
ping-true get [] log = (λ _. tt, λ _. refl)
ping-true get (t ∷ ts) log =
    after_answer-true (ping get ts) t (get t) log (Answer get ts) (ping-true get ts)

finish-generator :
    {F E : Type 0} (line : E → Line F E) (log : List (Line F E)) (r : Exit E × Gen F)
    → (finish line log r).generator ≢ none
unfolding finish
finish-generator line log (waiting, g) = λ e. cc
finish-generator line log (stopped, g) = λ e. cc
finish-generator line log (duration_reached, g) = λ e. cc
finish-generator line log (complete, g) = λ e. cc
finish-generator line log (panicked, g) = λ e. cc
finish-generator line log (failed e, g) = λ e. cc

finish_choice-generator :
    {F E : Type 0} (b : Bool) (line line' : E → Line F E) (log : List (Line F E))
    (r r' : Exit E × Gen F)
    → (if b then finish line log r else finish line' log r').generator ≢ none
finish_choice-generator true line line' log r r' = finish-generator line log r
finish_choice-generator false line line' log r r' = finish-generator line' log r'

pub is_empty_iff : (s : Text) → (is_empty s ≡ true) ↔ (s ≡ [])
is_empty_iff [] = (λ _. refl, λ _. refl)
is_empty_iff (c ∷ s) = (λ e. cc, λ e. cc)

-- A generator is started.
abbrev pub IsStarted : {F E : Type 0} → Run F E → Type 0
IsStarted r = r.generator ≢ none

-- The event mode is off, or it has a sink and a target.
abbrev pub HasSink : {F : Type 0} → Bool → Text → Config F → Type 0
HasSink event_mode k_sink cfg = (event_mode ≡ false) ⊎ ((k_sink ≢ []) × (cfg.targets ≢ []))

-- The pings are off, or each target answers.
abbrev pub HasAnswers :
    {E : Type 0} → Bool → (Target → Result E ResponseMetrics) → List Target → Type 0
HasAnswers on get ts = (on ≡ false) ⊎ Answer get ts

module _ (fl : Float) {E : Type 0} where
  event_to-IsStarted :
      (w : World fl.F E) (cfg : Config fl.F) (ts : List Target) (log : List (Line fl.F E))
      → IsStarted (event_to fl w cfg ts log) ↔ (ts ≢ [])
  unfolding event_to panic finish_or_panic
  event_to-IsStarted w cfg [] log = (λ h. absurd (h refl), λ h. absurd (h refl))
  event_to-IsStarted w cfg (t ∷ ts) log =
      let t' : Target = record t { url = w.k_sink } in
      let (q, same) =
        event_run-some fl {E = E} (record cfg { targets = t' ∷ ts }) t' ts w.ramp w.polls
          (new_event_generator fl) refl in
      (λ _. λ e. cc, λ _. rw same (finish-generator _ _ q))

  event_mode-IsStarted :
      (w : World fl.F E) (cfg : Config fl.F) (log : List (Line fl.F E))
      → IsStarted (event_mode fl w cfg log) ↔ ((w.k_sink ≢ []) × (cfg.targets ≢ []))
  unfolding event_mode
  event_mode-IsStarted w cfg log = elim (Bool-cases (is_empty w.k_sink)) [
    | inl e ↦ rw e (λ h. absurd (h refl), λ (h, _). absurd (h ((is_empty_iff w.k_sink).0 e)))
    | inr e ↦
        let starts = event_to-IsStarted w cfg cfg.targets in
        rw e (
          λ h. (λ none_set. cc ((is_empty_iff w.k_sink).1 none_set, e), (starts _).0 h),
          λ (_, h). (starts _).1 h,
        )
  ]

  run_mode-IsStarted :
      (flags : Flags fl.F) (w : World fl.F E) (cfg : Config fl.F) (log : List (Line fl.F E))
      → IsStarted (run_mode fl flags w cfg log) ↔ HasSink flags.cloud_event_mode w.k_sink cfg
  unfolding run_mode
  run_mode-IsStarted flags w cfg log = elim (Bool-cases flags.cloud_event_mode) [
    | inl e ↦ rw e (
      λ h. inr ((event_mode-IsStarted w cfg log).0 h),
      λ h. elim h [ inl off ↦ cc | inr both ↦ (event_mode-IsStarted w cfg log).1 both ],
    )
    | inr e ↦ rw e (
      λ h. inl refl,
      λ _.
          finish_choice-generator flags.cold_start_mode cold_start_failed generator_failed
            (log ++ initialized ∷ []) (run_cold_start fl cfg w.cold_ticks (new_generator fl cfg))
            (run fl cfg w.ramp w.ticks w.polls (new_generator fl cfg)),
    )
  ]

  after_ping-IsStarted :
      (flags : Flags fl.F) (w : World fl.F E) (cfg : Config fl.F) (p : Bool × List (Line fl.F E))
      → IsStarted (after_ping fl flags w cfg p)
        ↔ ((p.0 ≡ true) × HasSink flags.cloud_event_mode w.k_sink cfg)
  unfolding after_ping panic
  after_ping-IsStarted flags w cfg (true, log) = (
    λ h. (refl, (run_mode-IsStarted flags w cfg log).0 h),
    λ (_, h). (run_mode-IsStarted flags w cfg log).1 h,
  )
  after_ping-IsStarted flags w cfg (false, log) = (λ h. absurd (h refl), λ (e, _). cc)

  pub choice-answers :
      (on : Bool) (get : Target → Result E ResponseMetrics) (ts : List Target)
      (log : List (Line fl.F E))
      → ((if on then ping get ts log else (true, log)).0 ≡ true) ↔ HasAnswers on get ts
  choice-answers true get ts log = (
    λ e. inr ((ping-true get ts log).0 e),
    λ h. elim h [ inl off ↦ cc | inr answers ↦ (ping-true get ts log).1 answers ],
  )
  choice-answers false get ts log = (λ _. inl refl, λ _. refl)

  -- The configuration was loaded, and with the rate of the flag it passes the pings and has a sink.
  abbrev pub CanStart : Flags fl.F → World fl.F E → Result E (Config fl.F) → Type 0
  CanStart flags w (err e) = ⊥
  CanStart flags w (ok cfg) =
      HasAnswers flags.ping_endpoints (pool_of fl w (override fl flags.rps cfg))
        (override fl flags.rps cfg).targets
      × HasSink flags.cloud_event_mode w.k_sink (override fl flags.rps cfg)

  after_load-IsStarted :
      (flags : Flags fl.F) (w : World fl.F E) (r : Result E (Config fl.F))
      (log : List (Line fl.F E))
      → IsStarted (after_load fl flags w r log) ↔ CanStart flags w r
  unfolding after_load panic
  after_load-IsStarted flags w (err e) log = (λ h. absurd (h refl), λ h. absurd h)
  after_load-IsStarted flags w (ok cfg) log =
      let used : Config fl.F = override fl flags.rps cfg in
      let lines : List (Line fl.F E) =
        log
        ++ (if fl.lt (fl.of_ℕ 0) flags.rps then overriding flags.rps ∷ [] else [])
        ++ loaded (some used) ∷ [] in
      let pinged =
        if flags.ping_endpoints
        then ping (pool_of fl w used) used.targets lines
        else (true, lines) in
      let answers = choice-answers flags.ping_endpoints (pool_of fl w used) used.targets lines in
      let starts = after_ping-IsStarted flags w used pinged in
      (λ h. let (e, s) = starts.0 h in (answers.0 e, s), λ (a, s). starts.1 (answers.1 a, s))

  -- The log file can be opened.
  abbrev pub Opens : Flags fl.F → World fl.F E → Type 0
  Opens flags w = w.can_open (log_file_path flags.prefix (codes "/logs") w.now) ≡ true

  -- main starts a generator just when its log file can be opened, the configuration is loaded, every
  -- target answers its ping, if pings are asked for, and in event mode K_SINK is not empty and there
  -- is a target.
  pub main-IsStarted :
      (flags : Flags fl.F) (w : World fl.F E)
      → IsStarted (main fl flags w)
        ↔ (Opens flags w × CanStart flags w (load w.file w.unmarshal flags.dev_mode))
  unfolding main log_file_writer after_open panic
  main-IsStarted flags w =
      let starts =
        after_load-IsStarted flags w (load w.file w.unmarshal flags.dev_mode)
          (loading flags.config_path flags.dev_mode ∷ []) in
      elim (Bool-cases (w.can_open (log_file_path flags.prefix (codes "/logs") w.now))) [
        | inl e ↦ rw e (λ h. (refl, starts.0 h), λ (_, h). starts.1 h)
        | inr e ↦ rw e (λ h. absurd (h refl), λ (open', _). cc)
      ]
