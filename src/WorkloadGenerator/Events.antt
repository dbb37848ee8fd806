-- ===== src/WorkloadGenerator/Events.antt =====
-- cmd/workload-generator/main.go: the requests of the event mode.
use knative_benchmark.Prelude.{
  ℕ, ◌≤◌, ◌≡◌, ◌≢◌, refl, ◌∙◌, Bool, true, false, List, [], ◌∷◌, ◌++◌, some, ok, is_empty, arith,
  Float, Bool-cases, if◌then◌else◌, inl, inr, length,
}
use knative_benchmark.Store.{log_file_writer}
use knative_benchmark.Config.{Target, Config, load}
use knative_benchmark.Generator.State.{
  Gen, Exit, waiting, stopped, complete, duration_reached, panicked, failed, stop, rounds,
}
use knative_benchmark.Generator.CloudEvent.Laws.{event_run-slow}
use knative_benchmark.WorkloadGenerator.{
  after_open, log_file_writer, Flags, Line, World, Run, ping, finish, finish_or_panic, event_to,
  event_mode, run_mode, after_ping, pool_of, override, after_load, main, new_event_generator,
  loading, loaded, overriding, generator_failed, initialized, event_is, event_of,
}
use knative_benchmark.WorkloadGenerator.Laws.{is_empty_iff, Opens, HasAnswers, choice-answers}

finish-launched :
    {F E : Type 0} (line : E → Line F E) (log : List (Line F E)) (r : Exit E × Gen F)
    → (g : Gen F) × ((finish line log r).generator ≡ some g) × (g.launched ≡ r.1.launched)
unfolding finish stop
finish-launched line log (waiting, g) = (_, refl, refl)
finish-launched line log (stopped, g) = (_, refl, refl)
finish-launched line log (duration_reached, g) = (_, refl, refl)
finish-launched line log (complete, g) = (_, refl, refl)
finish-launched line log (panicked, g) = (_, refl, refl)
finish-launched line log (failed e, g) = (_, refl, refl)

-- The generator of a run sent at most `n` requests, all of them to `t`.
abbrev pub SendsTo : {F E : Type 0} → Target → ℕ → Run F E → Type 0
SendsTo {F} t n r =
    (g : Gen F) × (k : ℕ) × (r.generator ≡ some g) × (g.launched ≡ rounds k (t ∷ [])) × (k ≤ n)

override-targets :
    (fl : Float) (rps : fl.F) (cfg : Config fl.F) → (override fl rps cfg).targets ≡ cfg.targets
unfolding override
override-targets fl rps cfg = ground arith

module _ (fl : Float) {E : Type 0} where
  event_to-SendsTo :
      (w : World fl.F E) (cfg : Config fl.F) (t : Target) (ts : List Target)
      (log : List (Line fl.F E))
      → fl.lt (fl.of_ℕ 1) cfg.rate.requests_per_second ≡ false
      → SendsTo (record t { url = w.k_sink }) (length w.polls) (event_to fl w cfg (t ∷ ts) log)
  unfolding event_to finish_or_panic new_event_generator
  event_to-SendsTo w cfg t ts log slow =
      let t' : Target = record t { url = w.k_sink } in
      let cfg' : Config fl.F = record cfg { targets = t' ∷ ts } in
      let (q, same, (k, sent, few)) =
        event_run-slow fl {E = E} cfg' t' ts w.ramp w.polls (new_event_generator fl) refl slow in
      let (g, made, launched) =
        finish-launched generator_failed (log ++ event_is (event_of t') ∷ initialized ∷ []) q in
      (g, k, rw same made, launched ∙ sent, few)

  run_mode-SendsTo :
      (flags : Flags fl.F) (w : World fl.F E) (cfg : Config fl.F) (t : Target) (ts : List Target)
      (log : List (Line fl.F E))
      → cfg.targets ≡ t ∷ ts
      → flags.cloud_event_mode ≡ true
      → w.k_sink ≢ []
      → fl.lt (fl.of_ℕ 1) cfg.rate.requests_per_second ≡ false
      → SendsTo (record t { url = w.k_sink }) (length w.polls) (run_mode fl flags w cfg log)
  unfolding run_mode event_mode
  run_mode-SendsTo flags w cfg t ts log first events sink slow =
      let full : is_empty w.k_sink ≡ false = elim (Bool-cases (is_empty w.k_sink)) [
        | inl e ↦ absurd (sink ((is_empty_iff w.k_sink).0 e))
        | inr e ↦ e
      ] in
      rw events (rw full (rw first (event_to-SendsTo w cfg t ts _ slow)))

  after_ping-true :
      (flags : Flags fl.F) (w : World fl.F E) (cfg : Config fl.F) (p : Bool × List (Line fl.F E))
      → p.0 ≡ true
      → after_ping fl flags w cfg p ≡ run_mode fl flags w cfg p.1
  unfolding after_ping
  after_ping-true flags w cfg (true, log) h = refl
  after_ping-true flags w cfg (false, log) h = cc

  -- In event mode, with a log file that opens, a sink and a configuration that has a target and passes
  -- the pings, if pings are asked for, and at a rate of at most 1, the generator that main starts
  -- sends every request to the first target with its URL replaced by K_SINK, at most one on each
  -- wake-up.
  pub main-SendsTo :
      (flags : Flags fl.F) (w : World fl.F E) (cfg : Config fl.F) (t : Target) (ts : List Target)
      → Opens fl flags w
      → load w.file w.unmarshal flags.dev_mode ≡ ok cfg
      → cfg.targets ≡ t ∷ ts
      → flags.cloud_event_mode ≡ true
      → w.k_sink ≢ []
      → HasAnswers flags.ping_endpoints (pool_of fl w (override fl flags.rps cfg)) (t ∷ ts)
      → fl.lt (fl.of_ℕ 1) (override fl flags.rps cfg).rate.requests_per_second ≡ false
      → SendsTo (record t { url = w.k_sink }) (length w.polls) (main fl flags w)
  unfolding main log_file_writer after_open after_load
  main-SendsTo flags w cfg t ts opened is_loaded first events sink answers slow =
      let used : Config fl.F = override fl flags.rps cfg in
      let first_used : used.targets ≡ t ∷ ts = override-targets fl flags.rps cfg ∙ first in
      let lines : List (Line fl.F E) =
        (loading flags.config_path flags.dev_mode ∷ [])
        ++ (if fl.lt (fl.of_ℕ 0) flags.rps then overriding flags.rps ∷ [] else [])
        ++ loaded (some used) ∷ [] in
      let pinged =
        if flags.ping_endpoints
        then ping (pool_of fl w used) used.targets lines
        else (true, lines) in
      let done : pinged.0 ≡ true =
        (choice-answers fl flags.ping_endpoints (pool_of fl w used) used.targets lines).1
          (rw first_used answers) in
      rw opened (
        rw is_loaded (
          rw (after_ping-true flags w used pinged done)
            (run_mode-SendsTo flags w used t ts pinged.1 first_used events sink slow)))
