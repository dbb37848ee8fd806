-- ===== src/Collector/Expected.antt =====
-- cmd/top/main.go: the metrics that a usage and what a node can allocate are to give, written out.
use knative_benchmark.Prelude.{none, some, Text, codes, Dict, lookup, Float}
use knative_benchmark.Collector.{
  NodeMetrics, PodMetrics, Quantities, NodeUsage, PodUsage, Container,
}

module _ {Q : Type 0} (fl : Float) (qs : Quantities Q) where
  -- The quantity of a resource, nothing if it is not in the list.
  abbrev pub amount_of : Text → Dict Q → Q
  amount_of resource m = elim (lookup resource m) [ none ↦ qs.nothing | some q ↦ q ]

  abbrev pub node_of : (timestamp : Text) → (total : Dict Q) → NodeUsage Q → NodeMetrics fl.F
  node_of timestamp total u = record {
    name = u.name;
    cpu_usage = qs.print (amount_of (codes "cpu") u.usage);
    memory_usage = qs.print (amount_of (codes "memory") u.usage);
    cpu_percentage =
        fl.div (fl.of_ℤ (qs.milli_value (amount_of (codes "cpu") u.usage)))
          (fl.of_ℤ (qs.milli_value (amount_of (codes "cpu") total)));
    memory_percentage =
        fl.div (fl.of_ℤ (qs.value (amount_of (codes "memory") u.usage)))
          (fl.of_ℤ (qs.value (amount_of (codes "memory") total)));
    timestamp = timestamp;
  }

  abbrev pub pod_of :
      (timestamp node : Text) → (total : Dict Q) → PodUsage Q → Container Q → PodMetrics fl.F
  pod_of timestamp node total u c = record {
    pod_name = u.name;
    node_name = node;
    container_name = c.name;
    cpu_usage = qs.print (amount_of (codes "cpu") c.usage);
    memory_usage = qs.print (amount_of (codes "memory") c.usage);
    cpu_percentage =
        fl.div (fl.of_ℤ (qs.milli_value (amount_of (codes "cpu") c.usage)))
          (fl.of_ℤ (qs.milli_value (amount_of (codes "cpu") total)));
    memory_percentage =
        fl.div (fl.of_ℤ (qs.value (amount_of (codes "memory") c.usage)))
          (fl.of_ℤ (qs.value (amount_of (codes "memory") total)));
    timestamp = timestamp;
    container_timestamp = u.timestamp;
    container_window = u.window;
  }
