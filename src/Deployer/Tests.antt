-- ===== src/Deployer/Tests.antt =====
-- Runs of the deployer of cmd/deployer/main.go against a cluster that is a list of keys.
use knative_benchmark.Prelude.{
  ◌⊎◌, ℕ, ◌≡◌, refl, Bool, true, false, not, ◌&&◌, ◌||◌, [], ◌∷◌, Text, codes, Dict, lookup, some,
  none, pos, negsuc, ◌↔◌,
}
use knative_benchmark.Deployer.Objects.{
  ObjectKey, same_key, functions, key_of, eventing_key, class_key, metric_key,
}
use knative_benchmark.Deployer.{
  Client, deploy_trigger, delete_trigger, deploy_services, delete_services, deploy_broker_scenario,
  patch_annotations,
}
use knative_benchmark.Deployer.Main.{DeployerFlags, main}
use knative_benchmark.Deployer.Main.Laws.{IsPanic, IsBadLength, main-IsPanic}
use knative_benchmark.Deployer.Laws.{
  IsReliable, among, function_key, delete_trigger-deploy_trigger, delete_services-deploy_services,
  patch_annotations-class,
}

-- A cluster of objects known by a test on keys.
abbrev Cluster : Type 0
Cluster = ObjectKey → Bool

abbrev client : Client Cluster
client = record {
  create = λ o s. (true, λ k. s k || same_key (key_of o) k);
  delete = λ j s. (true, λ k. s k && not (same_key j k));
  get_trigger = λ k s. none;
  get_service = λ k s. none;
  update = λ o s. (s (key_of o), s);
}

abbrev has : ObjectKey → Cluster → Bool
has k s = s k

client-IsReliable : IsReliable client has
client-IsReliable = record { after_create = λ o s k. refl; after_delete = λ j s k. refl }

abbrev empty : Cluster
empty k = false

abbrev broker_key : ObjectKey
broker_key = record { kind = codes "Broker"; namespace = functions; name = codes "b" }

delete_trigger-deploy_trigger_example :
    has broker_key (
      delete_trigger client
        (codes "f")
        (pos 2)
        (deploy_trigger client (codes "f") (codes "b") (pos 2) empty))
    ≡ (has broker_key empty && not (among (eventing_key (codes "f")) broker_key 0 2))
delete_trigger-deploy_trigger_example =
    delete_trigger-deploy_trigger client has client-IsReliable (codes "f") (codes "b") (pos 2) empty
      broker_key

abbrev clock : ℕ → ℕ
clock i = i

delete_services-deploy_services_example :
    has broker_key (
      delete_services client clock
        (codes "f")
        (codes "go")
        (pos 2)
        (deploy_services client clock (codes "f") (codes "go") (pos 2) empty))
    ≡ (has broker_key empty && not (among (function_key (codes "f")) broker_key 0 2))
delete_services-deploy_services_example =
    delete_services-deploy_services client has client-IsReliable clock clock (codes "f")
      (codes "go") (codes "go") (pos 2) empty broker_key

abbrev scenario : Cluster
scenario = deploy_broker_scenario client (codes "b") (codes "f") (pos 2) empty

abbrev params : Dict Text
params = (codes "metric", codes "rps") ∷ (codes "target", codes "50") ∷ []

abbrev annotations : Dict Text
annotations = (class_key, codes "hpa.autoscaling.knative.dev") ∷ []

patch_annotations-class_example :
    (lookup metric_key (patch_annotations params annotations) ≡ some (codes "rps"))
    × (lookup class_key (patch_annotations params annotations)
        ≡ some (codes "hpa.autoscaling.knative.dev"))
patch_annotations-class_example =
    patch_annotations-class params annotations (codes "rps") refl refl refl

abbrev no_steps : DeployerFlags
no_steps = record {
  action = codes "sequence";
  name = codes "f";
  image = codes "go";
  amount = negsuc 0;
  broker_name = codes "b";
  metric = codes "rps";
  target = codes "50";
  parallelism = pos 10;
}

main-IsPanic_example : IsPanic (main client (λ q. some q) clock 1000 true true no_steps empty) ↔ (
    (true ≡ false)
    ⊎ ((true ≡ false) ⊎ ((codes "sequence" ≡ codes "sequence") × IsBadLength 1000 (negsuc 0))))
main-IsPanic_example = main-IsPanic client (λ q. some q) clock 1000 true true no_steps empty
