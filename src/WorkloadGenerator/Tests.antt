-- ===== src/WorkloadGenerator/Tests.antt =====
-- Runs of cmd/workload-generator/main.go with a pool that answers every ping. A float is a natural
-- number here.
use knative_benchmark.Prelude.{
  ℕ, ◌↔◌, refl, true, false, [], ◌∷◌, none, some, ok, codes, pos, arith, inr,
}
use knative_benchmark.Config.{Target, Config, load}
use knative_benchmark.Pool.Trace.{ResponseMetrics, no_timing}
use knative_benchmark.Generator.Tests.{naturals}
use knative_benchmark.WorkloadGenerator.{Flags, World, main, override}
use knative_benchmark.WorkloadGenerator.Laws.{Opens, IsStarted, CanStart, main-IsStarted}
use knative_benchmark.WorkloadGenerator.Events.{SendsTo, main-SendsTo}

abbrev target : Target
target = record {
  url = codes "http://f";
  headers = (codes "ce-id", codes "7") ∷ [];
  weight = pos 1;
  host_header = [];
  body = codes "{}";
}

abbrev cfg : Config ℕ
cfg = record {
  targets = target ∷ [];
  rate = record {
    requests_per_second = 20;
    duration = pos 0;
    max_idle_conns = pos 1;
    max_idle_conns_per_host = pos 1;
    idle_conn_timeout = pos 1;
    timeout = pos 1;
  };
  base_url = [];
  log_dir_path = [];
}

abbrev metrics : ResponseMetrics
metrics = record {
  response = record { status = 200; body = []; read_fails = false };
  timing = no_timing;
  total = 3;
}

abbrev flags : Flags ℕ
flags = record {
  config_path = codes "config.yaml";
  rps = 1;
  ping_endpoints = true;
  dev_mode = false;
  cloud_event_mode = true;
  cold_start_mode = false;
  prefix = codes "run";
}

abbrev world : World ℕ ℕ
world = record {
  can_open = λ p. true;
  now = record { year = 2024; month = 2; day = 29; hour = 12; minute = 0; second = 5; nanos = 7 };
  file = ok [];
  unmarshal = λ s. ok cfg;
  new_pool = λ base idle per_host idle_timeout timeout t. ok metrics;
  k_sink = codes "http://broker";
  ramp = [];
  ticks = [];
  polls = some (pos 1) ∷ some (pos 2) ∷ none ∷ [];
  cold_ticks = [];
}

main-IsStarted_example : IsStarted (main naturals flags world) ↔ (
    Opens naturals flags world
    × CanStart naturals flags world (load world.file world.unmarshal flags.dev_mode))
main-IsStarted_example = main-IsStarted naturals flags world

main-SendsTo_example :
    SendsTo (record target { url = codes "http://broker" }) 3 (main naturals flags world)
main-SendsTo_example =
    main-SendsTo naturals flags world cfg target [] refl (unfold load in refl) refl refl
      (ground arith) (inr ((metrics, refl), tt)) (unfold override in refl)
