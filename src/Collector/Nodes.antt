-- ===== src/Collector/Nodes.antt =====
-- cmd/top/main.go, `collectNodeMetrics`.
pub mod Laws
use knative_benchmark.Prelude.{
  List, [], ◌∷◌, Option, none, some, Result, ok, err, Text, Dict, insert, lookup, Float,
}
use knative_benchmark.Collector.{
  NodeMetrics, Storage, Quantities, cpu_of, memory_of, cpu_share, memory_share, NodeUsage, Node,
}
use knative_benchmark.Collector.Loop.{for_each}

-- `nodeAllocatable[node.Name] = …` for each node.
unfoldable pub node_allocatable : {Q : Type 0} → List (Node Q) → Dict (Dict Q) → Dict (Dict Q)
node_allocatable [] m = m
node_allocatable (n ∷ ns) m = node_allocatable ns (insert n.name n.allocatable m)

abbrev or_empty : {Q : Type 0} → Option (Dict Q) → Dict Q
or_empty none = []
or_empty (some r) = r

-- `now` is the time, as it is printed, when the metrics of a node are taken.
module _ {Q : Type 0} (fl : Float) (qs : Quantities Q) (now : Text → Text) where
  -- The record of a node. A node that is not in the list of nodes has nothing to allocate.
  unfoldable pub node_metrics : Dict (Dict Q) → NodeUsage Q → NodeMetrics fl.F
  node_metrics allocatable u =
      let own = or_empty (lookup u.name allocatable) in
      record {
        name = u.name;
        cpu_usage = qs.print (cpu_of qs u.usage);
        memory_usage = qs.print (memory_of qs u.usage);
        cpu_percentage = cpu_share qs fl u.usage own;
        memory_percentage = memory_share qs fl u.usage own;
        timestamp = now u.name;
      }

  module _ {S E : Type 0} (storage : Storage S E fl.F) where
    store_nodes : Dict (Dict Q) → List (NodeUsage Q) → S → Option E × S
    unfolding for_each node_metrics
    store_nodes allocatable =
        for_each (λ u s. storage.store_node_metrics (node_metrics allocatable u) s)

    with_nodes : List (NodeUsage Q) → Result E (List (Node Q)) → S → Option E × S
    unfolding store_nodes node_allocatable
    with_nodes usages (err e) s = (some e, s)
    with_nodes usages (ok nodes) s = store_nodes (node_allocatable nodes []) usages s

    -- `usages` and `nodes` are what the cluster answers.
    unfoldable pub collect_node_metrics :
        Result E (List (NodeUsage Q)) → Result E (List (Node Q)) → S → Option E × S
    unfolding with_nodes
    collect_node_metrics (err e) nodes s = (some e, s)
    collect_node_metrics (ok usages) nodes s = with_nodes usages nodes s
