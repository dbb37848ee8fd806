-- ===== src/WorkloadGenerator.antt =====
-- cmd/workload-generator/main.go: `main` after its flags, and `ping`.
pub mod Laws
pub mod Events
pub mod Tests
use knative_benchmark.Prelude.{
  ℕ, Bool, true, false, List, [], ◌∷◌, ◌++◌, Option, none, some, Result, ok, err, if◌then◌else◌,
  Text, codes, Dict, lookup, is_empty, ℤ, pos, Float,
}
use knative_benchmark.Timestamp.{Timestamp}
use knative_benchmark.Store.{log_file_writer}
use knative_benchmark.Config.{Target, Config, load}
use knative_benchmark.Pool.Trace.{ResponseMetrics}
use knative_benchmark.Generator.State.{
  Gen, Exit, waiting, stopped, complete, duration_reached, panicked, failed, Wake, stop,
}
use knative_benchmark.Generator.Loop.{run_cold_start}
use knative_benchmark.Generator.RampUp.{StepSchedule, run}
use knative_benchmark.Generator.CloudEvent.{event_run}

pub record Flags (F : Type 0) : Type 0 where
  pub config_path : Text
  pub rps : F
  pub ping_endpoints : Bool
  pub dev_mode : Bool
  pub cloud_event_mode : Bool
  pub cold_start_mode : Bool
  pub prefix : Text

-- What main passes to the setters of an event, the data with its content type.
pub record Event : Type 0 where
  pub id : Text
  pub source : Text
  pub kind : Text
  pub content_type : Text
  pub body : Text

-- The lines of the log that main and `ping` write; those of a generator come after `initialized`.
pub data Line (F E : Type 0) : Type 0 where
  loading : Text → Bool → Line F E
  load_failed generator_failed cold_start_failed : E → Line F E
  overriding : F → Line F E
  loaded : Option (Config F) → Line F E
  ping_failed : Text → E → Line F E
  pinged : Text → ResponseMetrics → Line F E
  sink : Text → Line F E
  sink_not_set initialized : Line F E
  event_is : Event → Line F E

-- `running` is a main whose generator still runs when its schedule ends.
pub data Ending : Type 0 where
  returned exited panic_reached running : Ending

-- The log, the generator if one was started, and how main ended.
pub record Run (F E : Type 0) : Type 0 where
  pub log : List (Line F E)
  pub generator : Option (Gen F)
  pub ending : Ending

-- The headers of a target are a map: a missing key is the empty text.
abbrev header_or_empty : Option Text → Text
header_or_empty none = []
header_or_empty (some v) = v

unfoldable pub event_of : Target → Event
event_of t = record {
  id = header_or_empty (lookup (codes "ce-id") t.headers);
  source = header_or_empty (lookup (codes "ce-source") t.headers);
  kind = header_or_empty (lookup (codes "ce-type") t.headers);
  content_type = header_or_empty (lookup (codes "Content-Type") t.headers);
  body = t.body;
}

module _ {F E : Type 0} where
  -- The rest of the loop follows a ping that succeeded; otherwise main panics, `false`.
  after_answer :
      (List (Line F E) → Bool × List (Line F E))
      → Text
      → Result E ResponseMetrics
      → List (Line F E)
      → Bool × List (Line F E)
  after_answer rest url (err e) log = (false, log ++ ping_failed url e ∷ [])
  after_answer rest url (ok r) log = rest (log ++ pinged url r ∷ [])

  unfoldable pub ping :
      (Target → Result E ResponseMetrics) → List Target → List (Line F E) → Bool × List (Line F E)
  unfolding after_answer
  ping get [] log = (true, log)
  ping get (t ∷ ts) log = after_answer (ping get ts) t.url (get t) log

  -- `Stop` and the end of main, after the error of the generator is logged.
  unfoldable pub finish : (E → Line F E) → List (Line F E) → Exit E × Gen F → Run F E
  unfolding stop
  finish line log (waiting, g) = record { log = log; generator = some g; ending = running }
  finish line log (panicked, g) = record { log = log; generator = some g; ending = panic_reached }
  finish line log (failed e, g) = record {
    log = log ++ line e ∷ [];
    generator = some (stop g);
    ending = returned;
  }
  finish line log (_, g) = record { log = log; generator = some (stop g); ending = returned }

  unfoldable pub panic : List (Line F E) → Run F E
  panic log = record { log = log; generator = none; ending = panic_reached }

  finish_or_panic : (E → Line F E) → List (Line F E) → Option (Exit E × Gen F) → Run F E
  unfolding finish panic
  finish_or_panic line log none = panic log
  finish_or_panic line log (some r) = finish line log r

-- Which files can be opened, the time, what wakes the generator up, the environment and what is not
-- main's own: the file, the YAML package and the pool, by what its `Get` answers.
pub record World (F E : Type 0) : Type 0 where
  pub can_open : Text → Bool
  pub now : Timestamp
  pub file : Result E Text
  pub unmarshal : Text → Result E (Config F)
  pub new_pool :
      (base_url : Text)
      → (max_idle_conns max_idle_conns_per_host idle_conn_timeout timeout : ℤ) → Target
      → Result E ResponseMetrics
  pub k_sink : Text
  pub ramp : List (StepSchedule E)
  pub ticks : List (Wake E)
  pub polls : List (Option ℤ)
  pub cold_ticks : List (Option (ℕ × (Target → ℕ)))

module _ (fl : Float) where
  -- `New` and `NewCloudEventGenerator`, which makes no limiter.
  unfoldable pub new_generator : Config fl.F → Gen fl.F
  new_generator cfg = record {
    cancelled = false;
    launched = [];
    current_rate = fl.of_ℕ 0;
    limiters = (cfg.rate.requests_per_second, pos 1) ∷ [];
  }

  unfoldable pub new_event_generator : Gen fl.F
  new_event_generator = record {
    cancelled = false;
    launched = [];
    current_rate = fl.of_ℕ 0;
    limiters = [];
  }

  -- The flag -rps, if it is positive.
  unfoldable pub override : fl.F → Config fl.F → Config fl.F
  override rps cfg =
      if fl.lt (fl.of_ℕ 0) rps
      then record cfg { rate = record cfg.rate { requests_per_second = rps } }
      else cfg

module _ (fl : Float) {E : Type 0} where
  -- `cfg.Targets[0].URL = kSink`, which panics if there is no target.
  event_to : World fl.F E → Config fl.F → List Target → List (Line fl.F E) → Run fl.F E
  unfolding panic finish_or_panic event_run event_of new_event_generator
  event_to w cfg [] log = panic log
  event_to w cfg (t ∷ ts) log =
      let t' = record t { url = w.k_sink } in
      finish_or_panic generator_failed (log ++ event_is (event_of t') ∷ initialized ∷ [])
        (event_run fl (record cfg { targets = t' ∷ ts }) w.ramp w.polls (new_event_generator fl))

  event_mode : World fl.F E → Config fl.F → List (Line fl.F E) → Run fl.F E
  unfolding event_to
  event_mode w cfg log =
      let log' = log ++ sink w.k_sink ∷ [] in
      if is_empty w.k_sink
      then record { log = log' ++ sink_not_set ∷ []; generator = none; ending = exited }
      else event_to w cfg cfg.targets log'

  unfoldable pub run_mode :
      Flags fl.F → World fl.F E → Config fl.F → List (Line fl.F E) → Run fl.F E
  unfolding event_mode finish run_cold_start run new_generator
  run_mode flags w cfg log =
      if flags.cloud_event_mode
      then event_mode w cfg log
      else if flags.cold_start_mode
      then finish cold_start_failed (log ++ initialized ∷ [])
          (run_cold_start fl cfg w.cold_ticks (new_generator fl cfg))
      else finish generator_failed (log ++ initialized ∷ [])
          (run fl cfg w.ramp w.ticks w.polls (new_generator fl cfg))

  after_ping : Flags fl.F → World fl.F E → Config fl.F → Bool × List (Line fl.F E) → Run fl.F E
  unfolding run_mode panic
  after_ping flags w cfg (true, log) = run_mode flags w cfg log
  after_ping flags w cfg (false, log) = panic log

  abbrev pub pool_of : World fl.F E → Config fl.F → Target → Result E ResponseMetrics
  pool_of w cfg =
      w.new_pool cfg.base_url cfg.rate.max_idle_conns cfg.rate.max_idle_conns_per_host
        cfg.rate.idle_conn_timeout cfg.rate.timeout

  -- With a configuration that was not loaded, `cfg` is nil: its first use panics.
  after_load : Flags fl.F → World fl.F E → Result E (Config fl.F) → List (Line fl.F E) → Run fl.F E
  unfolding after_ping ping override panic
  after_load flags w (err e) log = panic (
      (log ++ load_failed e ∷ []) ++ (if fl.lt (fl.of_ℕ 0) flags.rps then [] else loaded none ∷ []))
  after_load flags w (ok cfg) log =
      let cfg' = override fl flags.rps cfg in
      let lines = if fl.lt (fl.of_ℕ 0) flags.rps then overriding flags.rps ∷ [] else [] in
      let log' = log ++ lines ++ loaded (some cfg') ∷ [] in
      after_ping flags w cfg'
        (if flags.ping_endpoints then ping (pool_of w cfg') cfg'.targets log' else (true, log'))

  after_open : Flags fl.F → World fl.F E → Option Text → Run fl.F E
  unfolding after_load load panic
  after_open flags w none = panic []
  after_open flags w (some path) =
      after_load flags w (load w.file w.unmarshal flags.dev_mode)
        (loading flags.config_path flags.dev_mode ∷ [])

  unfoldable pub main : Flags fl.F → World fl.F E → Run fl.F E
  unfolding after_open log_file_writer
  main flags w = after_open flags w (log_file_writer w.can_open flags.prefix (codes "/logs") w.now)
