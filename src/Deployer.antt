-- ===== src/Deployer.antt =====
-- cmd/deployer/main.go: what the deployer creates, patches and deletes in a cluster.
pub mod Objects
pub mod Patch
pub mod Main
pub mod Laws
pub mod Tests
use knative_benchmark.Prelude.{
  leb, ℕ, zero, suc, Bool, true, false, ◌&&◌, ◌||◌, List, [], ◌∷◌, ◌++◌, Option, none, some, ◌>>=◌,
  Result, ok, err, if◌then◌else◌, Text, codes, text_eq, Dict, insert, lookup, ℤ, pos, negsuc,
}
use knative_benchmark.Decimal.{decimal, itoa}
use knative_benchmark.Deployer.Objects.{
  same_key, functions, eventing, key_of, trigger_name, service_name, step_names, eventing_key,
  parallelism_key, eventing_trigger, scenario_trigger, metric_key, target_key, utilization_key,
  class_key, create_knative_service, ObjectKey, Trigger, Service, Object, trigger, service, broker,
  sequence,
}

-- The client of a cluster with the state `S`: what a call answers, and the state after it.
pub record Client (S : Type 0) : Type 0 where
  pub create : Object → S → Bool × S
  pub delete : ObjectKey → S → Bool × S
  pub get_trigger : ObjectKey → S → Option Trigger
  pub get_service : ObjectKey → S → Option Service
  pub update : Object → S → Bool × S

-- Where the deployer panics.
pub data Panic : Type 0 where
  bad_length nil_map bad_quantity no_config no_client : Panic

-- `for i := 0; i < amount; i++`; a negative amount is no round.
unfoldable pub repeat : {S : Type 0} → (ℕ → S → S) → ℕ → ℕ → S → S
repeat body i zero s = s
repeat body i (suc n) s = repeat body (suc i) n (body i s)

abbrev pub rounds_of : ℤ → ℕ
rounds_of (pos n) = n
rounds_of (negsuc n) = 0

-- The annotations of `patchFunctionService`. `target` is read also if it is missing.
abbrev pub text_or_empty : Option Text → Text
text_or_empty none = []
text_or_empty (some v) = v

unfoldable pub set_target : Text → Text → Dict Text → Dict Text
set_target metric target m =
    if text_eq metric (codes "concurrency")
    then insert utilization_key target m
    else if text_eq metric (codes "rps")
    then insert target_key target m
    else if text_eq metric (codes "cpu") || text_eq metric (codes "memory")
    then insert target_key target (insert class_key (codes "hpa.autoscaling.knative.dev") m)
    else m

abbrev pub patch_metric : Option Text → Text → Dict Text → Dict Text
patch_metric none target m = m
patch_metric (some metric) target m = set_target metric target (insert metric_key metric m)

unfoldable pub patch_annotations : Dict Text → Dict Text → Dict Text
unfolding set_target
patch_annotations params m =
    patch_metric (lookup (codes "metric") params) (text_or_empty (lookup (codes "target") params)) m

module _ {S : Type 0} (c : Client S) where
  unfoldable pub deploy_trigger : Text → Text → ℤ → S → S
  unfolding repeat trigger_name
  deploy_trigger name broker_name amount =
      repeat (λ i s. (c.create (trigger (eventing_trigger name broker_name i)) s).1) 0
        (rounds_of amount)

  unfoldable pub delete_trigger : Text → ℤ → S → S
  unfolding repeat eventing_key
  delete_trigger name amount =
      repeat (λ i s. (c.delete (eventing_key name i) s).1) 0 (rounds_of amount)

  scenario_triggers : Text → Text → ℤ → Bool × S → S
  unfolding repeat trigger_name service_name
  scenario_triggers name broker_name amount (false, s) = s
  scenario_triggers name broker_name amount (true, s) =
      repeat (λ i s'. (c.create (trigger (scenario_trigger name broker_name i)) s').1) 0
        (rounds_of amount) s

  -- No trigger is created if the broker cannot be.
  unfoldable pub deploy_broker_scenario : Text → Text → ℤ → S → S
  unfolding scenario_triggers
  deploy_broker_scenario broker_name name amount s =
      scenario_triggers name broker_name amount (c.create (broker broker_name) s)

  -- `handleServiceAction` for `deploy` and for `delete`; `clock` is the time of each round.
  unfoldable pub deploy_services : (ℕ → ℕ) → Text → Text → ℤ → S → S
  unfolding repeat service_name create_knative_service
  deploy_services clock name image amount =
      repeat
        (λ i s.
          (c.create (service (create_knative_service (clock i) (service_name name i) image)) s).1)
        0 (rounds_of amount)

  unfoldable pub delete_services : (ℕ → ℕ) → Text → Text → ℤ → S → S
  unfolding repeat service_name create_knative_service key_of
  delete_services clock name image amount =
      repeat
        (λ i s.
          (c.delete
            (key_of (service (create_knative_service (clock i) (service_name name i) image))) s).1)
        0 (rounds_of amount)

  -- `make` with a negative length panics.
  -- `make` panics for a length that is negative or above the largest that it can allocate.
  sequence_of : (max_steps : ℕ) → Text → ℤ → Result Panic Object
  unfolding step_names
  sequence_of max_steps name (pos n) =
      if leb n max_steps
      then ok (sequence name (step_names name 0 n) (codes "receiver"))
      else err bad_length
  sequence_of max_steps name (negsuc n) = err bad_length

  unfoldable pub deploy_sequence : (max_steps : ℕ) → Text → ℤ → S → Result Panic S
  unfolding sequence_of
  deploy_sequence max_steps name steps s = do
    o ← sequence_of max_steps name steps
    ok (c.create o s).1

  update_trigger : ℤ → Option Trigger → S → S
  update_trigger parallelism none s = s
  update_trigger parallelism (some t) s =
      let annotations = insert parallelism_key (itoa parallelism) t.annotations in
      (c.update (trigger (record t { annotations = annotations })) s).1

  unfoldable pub patch_trigger : Text → ℤ → S → S
  unfolding update_trigger
  patch_trigger name parallelism s =
      update_trigger parallelism
        (c.get_trigger (record { kind = codes "Trigger"; namespace = eventing; name = name }) s) s
