-- ===== src/Collector/Pods.antt =====
-- cmd/top/main.go, `collectPodMetrics` and `contains`.
pub mod Laws
pub mod Namespaces
use knative_benchmark.Prelude.{
  true, false, Bool, not, List, [], ◌∷◌, ◌++◌, Option, none, some, Result, ok, err, ◌>>=◌,
  if◌then◌else◌, Text, is_empty, text_eq, Dict, Float,
}
use knative_benchmark.Collector.{
  PodMetrics, Storage, Settings, Quantities, cpu_of, memory_of, cpu_share, memory_share, PodUsage,
  Container,
}
use knative_benchmark.Collector.Loop.{for_each}

-- What the cluster answers: namespaces, the metrics of a namespace's pods, the node of a pod (the
-- empty text if it is not scheduled), and what a node can allocate.
pub record PodCluster (Q E : Type 0) : Type 0 where
  pub namespaces : Result E (List Text)
  pub pod_metrics : Text → Result E (List (PodUsage Q))
  pub node_of_pod : Text → Text → Result E Text
  pub allocatable : Text → Result E (Dict Q)

unfoldable pub contains_text : List Text → Text → Bool
contains_text [] item = false
contains_text (s ∷ slice) item =
    let rest = contains_text slice item in if text_eq s item then true else rest

-- The loop that appends the names that are not ignored.
unfoldable pub add_names : List Text → List Text → List Text → List Text
unfolding contains_text
add_names ignored [] slice = slice
add_names ignored (name ∷ names) slice =
    add_names ignored names (if not (contains_text ignored name) then slice ++ name ∷ [] else slice)

unfoldable pub namespaces_to_collect :
    {E : Type 0} → Settings → Result E (List Text) → Result E (List Text)
unfolding add_names
namespaces_to_collect settings answer =
    if settings.all_namespaces
    then (answer >>= λ names. ok (add_names settings.ignore_namespaces names settings.namespaces))
    else ok settings.namespaces

-- `now` is the time, as it is printed, when the metrics of a container are taken; its arguments are
-- the names of the namespace, the pod and the container.
module _ {Q : Type 0} (fl : Float) (qs : Quantities Q) (now : Text → Text → Text → Text) where
  unfoldable pub container_metrics :
      Text → PodUsage Q → Text → Dict Q → Container Q → PodMetrics fl.F
  container_metrics ns u node allocatable c = record {
    pod_name = u.name;
    node_name = node;
    container_name = c.name;
    cpu_usage = qs.print (cpu_of qs c.usage);
    memory_usage = qs.print (memory_of qs c.usage);
    cpu_percentage = cpu_share qs fl c.usage allocatable;
    memory_percentage = memory_share qs fl c.usage allocatable;
    timestamp = now ns u.name c.name;
    container_timestamp = u.timestamp;
    container_window = u.window;
  }

  module _ {S E : Type 0} (storage : Storage S E fl.F) (cluster : PodCluster Q E) where
    store_containers : Text → PodUsage Q → Text → Result E (Dict Q) → S → Option E × S
    unfolding for_each container_metrics
    store_containers ns u node (err e) s = (some e, s)
    store_containers ns u node (ok allocatable) s =
        for_each (λ c t. storage.store_pod_metrics (container_metrics ns u node allocatable c) t)
          u.containers s

    -- A pod that is on no node is skipped.
    on_node : Text → PodUsage Q → Result E Text → S → Option E × S
    unfolding store_containers
    on_node ns u (err e) s = (some e, s)
    on_node ns u (ok node) s =
        if is_empty node then (none, s) else store_containers ns u node (cluster.allocatable node) s

    collect_pod : Text → PodUsage Q → S → Option E × S
    unfolding on_node
    collect_pod ns u s = on_node ns u (cluster.node_of_pod ns u.name) s

    each_pod : Text → Result E (List (PodUsage Q)) → S → Option E × S
    unfolding for_each collect_pod
    each_pod ns (err e) s = (some e, s)
    each_pod ns (ok us) s = for_each (collect_pod ns) us s

    collect_namespace : Text → S → Option E × S
    unfolding each_pod
    collect_namespace ns s = each_pod ns (cluster.pod_metrics ns) s

    each_namespace : Result E (List Text) → S → Option E × S
    unfolding for_each collect_namespace
    each_namespace (err e) s = (some e, s)
    each_namespace (ok names) s = for_each collect_namespace names s

    unfoldable pub collect_pod_metrics : Settings → S → Option E × S
    unfolding each_namespace namespaces_to_collect
    collect_pod_metrics settings s =
        each_namespace (namespaces_to_collect settings cluster.namespaces) s
