-- ===== src/Generator/Tests.antt =====
-- Runs of the generators of pkg/generator/generator.go on small schedules. A float is a natural
-- number here.
use knative_benchmark.Prelude.{
  ℕ, zero, suc, ◌+◌, ◌-◌, ◌/◌, ◌≤◌, ◌≡◌, refl, true, false, not, List, [], ◌∷◌, ◌++◌, length,
  Option, none, some, ℤ, pos, negsuc, ltb, leb, ◌==◌, Float, codes, All,
}
use knative_benchmark.Config.{Target, Config}
use knative_benchmark.Pool.Trace.{no_timing}
use knative_benchmark.Generator.Request.{
  Fetch, fetched, run_request, send_request, max_request, event_request, event_send,
}
use knative_benchmark.Generator.Request.Laws.{leaks, leaks_iff, run_request-send_request}
use knative_benchmark.Generator.State.{
  Gen, complete, duration_reached, Wake, tick, stop, is_due, rounds,
}
use knative_benchmark.Generator.Loop.{run_loop}
use knative_benchmark.Generator.Loop.Laws.{
  IsServed, after, run_loop-duration_reached, run_loop-rounds,
}
use knative_benchmark.Generator.RampUp.{StepSchedule, ramp_up, step_loop, timer}
use knative_benchmark.Generator.RampUp.Laws.{plan, ramp_up-plan}

abbrev magnitude : ℤ → ℕ
magnitude (pos n) = n
magnitude (negsuc n) = suc n

abbrev pub naturals : Float
naturals = record {
  F = ℕ;
  of_ℕ = λ n. n;
  of_ℤ = λ z. magnitude z;
  add = λ a b. a + b;
  sub = λ a b. a - b;
  div = λ a b. a / b;
  eq = λ a b. a == b;
  lt = λ a b. ltb a b;
  le = λ a b. leb a b;
  to_int = λ n. pos n;
}

abbrev a_target : Target
a_target = record {
  url = codes "http://a";
  headers = [];
  weight = pos 1;
  host_header = [];
  body = [];
}

abbrev b_target : Target
b_target = record a_target { url = codes "http://b" }

abbrev config : ℤ → Config ℕ
config duration = record {
  targets = a_target ∷ b_target ∷ [];
  rate = record {
    requests_per_second = 16;
    duration = duration;
    max_idle_conns = pos 10;
    max_idle_conns_per_host = pos 10;
    idle_conn_timeout = pos 30;
    timeout = pos 30;
  };
  base_url = [];
  log_dir_path = [];
}

abbrev idle : Gen ℕ
idle = record { cancelled = false; launched = []; current_rate = 0; limiters = [] }

abbrev served : List (Wake ℕ)
served = tick none (pos 3) ∷ tick none (pos 5) ∷ []

served-All : All (IsServed (config (pos 5))) served
unfolding is_due
served-All = (refl, (refl, tt))

late : is_due (config (pos 5)) (pos 6) ≡ true
unfolding is_due
late = refl

run_loop-duration_reached_example :
    run_loop {E = ℕ} (config (pos 5)) (served ++ tick none (pos 6) ∷ served) idle
    ≡ (duration_reached, stop (after (a_target ∷ b_target ∷ []) 3 idle))
run_loop-duration_reached_example =
    run_loop-duration_reached (config (pos 5)) served served (pos 6) idle served-All late

run_loop-rounds_example :
    (k : ℕ) × ((run_loop {E = ℕ} (config (pos 5)) served idle).1.launched
      ≡ [] ++ rounds k (a_target ∷ b_target ∷ []))
    × (k ≤ 2)
run_loop-rounds_example = run_loop-rounds (config (pos 5)) served idle

abbrev polls : List (Option ℤ)
polls = some (pos 1) ∷ some (pos 9) ∷ none ∷ []

abbrev one_second_each : ℕ → List (StepSchedule ℕ)
one_second_each zero = []
one_second_each (suc n) = (false, timer ∷ []) ∷ one_second_each n

ramp_up-complete : (ramp_up naturals (config (pos 0)) (one_second_each 15) idle).0 ≡ complete
unfolding ramp_up step_loop
ramp_up-complete = refl

ramp_up-plan_example :
    (ramp_up naturals (config (pos 0)) (one_second_each 15) idle).1.limiters
    ≡ [] ++ plan naturals 15 1 1
ramp_up-plan_example =
    ramp_up-plan naturals (config (pos 0)) (one_second_each 15) idle refl ramp_up-complete

abbrev unreadable : Fetch
unreadable = fetched (record {
  response = record { status = 200; body = codes "true"; read_fails = true };
  timing = no_timing;
  total = 7;
})

leaks_iff_example :
    (leaks unreadable (run_request a_target unreadable) ≡ true)
    × (leaks unreadable (send_request a_target unreadable) ≡ true)
    × (leaks unreadable (event_send a_target [] unreadable) ≡ true)
    × (leaks unreadable (event_request a_target [] unreadable) ≡ false)
    × (leaks unreadable (max_request a_target unreadable) ≡ true)
leaks_iff_example = leaks_iff a_target [] unreadable

run_request-send_request_example :
    ((run_request a_target unreadable).log ≡ (send_request a_target unreadable).log)
    × (length (run_request a_target unreadable).log ≡ 1)
    × All
        (λ e. e.is_error ≡ (send_request a_target unreadable).fails)
        (run_request a_target unreadable).log
    × ((run_request a_target unreadable).counted ≡ not (send_request a_target unreadable).fails)
run_request-send_request_example = run_request-send_request a_target unreadable
