-- ===== src/Deployer/Objects.antt =====
-- cmd/deployer/main.go: the objects that the deployer creates, and their names.
use knative_benchmark.Prelude.{
  ℕ, zero, suc, Bool, ◌&&◌, List, [], ◌∷◌, ◌++◌, Option, none, Text, codes, text_eq, Dict,
}
use knative_benchmark.Decimal.{decimal}

pub record ObjectKey : Type 0 where
  pub kind : Text
  pub namespace : Text
  pub name : Text

unfoldable pub same_key : ObjectKey → ObjectKey → Bool
same_key j k = text_eq j.kind k.kind && text_eq j.namespace k.namespace && text_eq j.name k.name

abbrev pub functions : Text
functions = codes "functions"

abbrev pub eventing : Text
eventing = codes "knative-eventing"

-- A trigger; the subscriber is a service in `functions`.
pub record Trigger : Type 0 where
  pub namespace : Text
  pub name : Text
  pub annotations : Dict Text
  pub broker : Text
  pub subscriber : Text

-- A service; of its template, what depends on the arguments or is patched. It has one container, with
-- its limits and requests of resources, `none` for a nil map.
pub record Service : Type 0 where
  pub name : Text
  pub labels : Dict Text
  pub template_labels : Dict Text
  pub annotations : Dict Text
  pub image : Text
  pub limits : Option (Dict Text)
  pub requests : Option (Dict Text)

pub data Object : Type 0 where
  trigger : Trigger → Object
  service : Service → Object
  broker : (name : Text) → Object
  sequence : (name : Text) → (steps : List Text) → (reply : Text) → Object

unfoldable pub key_of : Object → ObjectKey
key_of (trigger t) = record { kind = codes "Trigger"; namespace = t.namespace; name = t.name }
key_of (service s) = record { kind = codes "Service"; namespace = functions; name = s.name }
key_of (broker name) = record { kind = codes "Broker"; namespace = functions; name = name }
key_of (sequence name steps reply) = record {
  kind = codes "Sequence";
  namespace = functions;
  name = name;
}

-- `fmt.Sprintf("%s-trigger-%d", name, i)` and `fmt.Sprintf("%s-%d", name, i)`
unfoldable pub trigger_name : Text → ℕ → Text
trigger_name name i = name ++ (codes "-trigger-" ++ decimal i)

unfoldable pub service_name : Text → ℕ → Text
service_name name i = name ++ b'-' ∷ decimal i

unfoldable pub step_names : Text → ℕ → ℕ → List Text
unfolding service_name
step_names name i zero = []
step_names name i (suc n) = service_name name i ∷ step_names name (suc i) n

unfoldable pub eventing_key : Text → ℕ → ObjectKey
unfolding trigger_name
eventing_key name i = record {
  kind = codes "Trigger";
  namespace = eventing;
  name = trigger_name name i;
}

abbrev pub parallelism_key : Text
parallelism_key = codes "rabbitmq.eventing.knative.dev/parallelism"

abbrev pub eventing_trigger : Text → Text → ℕ → Trigger
eventing_trigger name broker_name i = record {
  namespace = eventing;
  name = trigger_name name i;
  annotations = (parallelism_key, codes "10") ∷ [];
  broker = broker_name;
  subscriber = codes "reciever-0";
}

abbrev pub scenario_trigger : Text → Text → ℕ → Trigger
scenario_trigger name broker_name i = record {
  namespace = functions;
  name = trigger_name name i;
  annotations = [];
  broker = broker_name;
  subscriber = service_name name i;
}

abbrev pub metric_key : Text
metric_key = codes "autoscaling.knative.dev/metric"

abbrev pub target_key : Text
target_key = codes "autoscaling.knative.dev/target"

abbrev pub utilization_key : Text
utilization_key = codes "autoscaling.knative.dev/target-utilization-percentage"

abbrev pub class_key : Text
class_key = codes "autoscaling.knative.dev/class"

abbrev function_labels : Text → Dict Text
function_labels name =
    (codes "boson.dev/function", codes "true")
    ∷ (codes "boson.dev/runtime", codes "go")
    ∷ (codes "function.knative.dev", codes "true")
    ∷ (codes "function.knative.dev/name", name)
    ∷ (codes "function.knative.dev/runtime", codes "go")
    ∷ []

-- `createKnativeService`, at a time in seconds.
unfoldable pub create_knative_service : ℕ → Text → Text → Service
create_knative_service now name image = record {
  name = name;
  labels = function_labels name;
  template_labels =
      function_labels name
      ++ (codes "serving.knative.dev/revision", name ++ (codes "-rev-" ++ decimal now))
        ∷ (codes "serving.knative.dev/configuration", name)
        ∷ (codes "serving.knative.dev/service", name)
        ∷ [];
  annotations = (metric_key, codes "concurrency") ∷ (utilization_key, codes "70") ∷ [];
  image = codes "docker.io/luccadibenedetto/" ++ (image ++ codes ":latest");
  limits = none;
  requests = none;
}
