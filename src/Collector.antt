-- ===== src/Collector.antt =====
-- cmd/top/main.go: the collector of resource metrics: its records, its settings, and the interface
-- of its storages.
pub mod Loop
pub mod Nodes
pub mod Pods
pub mod Csv
pub mod Sqlite
pub mod Rounds
pub mod Log
pub mod Expected
pub mod Tests
use knative_benchmark.Prelude.{
  Bool, List, [], ◌∷◌, Option, none, some, Text, codes, Dict, lookup, ℤ, Float,
}

pub record NodeMetrics (F : Type 0) : Type 0 where
  pub name : Text
  pub cpu_usage : Text
  pub memory_usage : Text
  pub cpu_percentage : F
  pub memory_percentage : F
  pub timestamp : Text

pub record PodMetrics (F : Type 0) : Type 0 where
  pub pod_name : Text
  pub node_name : Text
  pub container_name : Text
  pub cpu_usage : Text
  pub memory_usage : Text
  pub cpu_percentage : F
  pub memory_percentage : F
  pub timestamp : Text
  pub container_timestamp : Text
  pub container_window : Text

-- The flags that the collection reads.
pub record Settings : Type 0 where
  pub all_namespaces : Bool
  pub namespaces : List Text
  pub ignore_namespaces : List Text
  pub collect_nodes : Bool
  pub collect_pods : Bool

-- `Storage`, with the state `S`: each call answers an error or `none`, for nil, and the new state.
pub record Storage (S E F : Type 0) : Type 0 where
  pub store_node_metrics : NodeMetrics F → S → Option E × S
  pub store_pod_metrics : PodMetrics F → S → Option E × S
  pub close : S → Option E × S

-- What the collector uses of the package for quantities; `nothing` is the quantity of a resource
-- that is not in a list.
pub record Quantities (Q : Type 0) : Type 0 where
  pub nothing : Q
  pub milli_value : Q → ℤ
  pub value : Q → ℤ
  pub print : Q → Text

module _ {Q : Type 0} (qs : Quantities Q) where
  abbrev or_nothing : Option Q → Q
  or_nothing none = qs.nothing
  or_nothing (some q) = q

  abbrev pub cpu_of : Dict Q → Q
  cpu_of resources = or_nothing (lookup (codes "cpu") resources)

  abbrev pub memory_of : Dict Q → Q
  memory_of resources = or_nothing (lookup (codes "memory") resources)

  -- Of the usage and of what can be allocated.
  abbrev pub cpu_share : (fl : Float) → Dict Q → Dict Q → fl.F
  cpu_share fl usage allocatable =
      fl.div (fl.of_ℤ (qs.milli_value (cpu_of usage)))
        (fl.of_ℤ (qs.milli_value (cpu_of allocatable)))

  abbrev pub memory_share : (fl : Float) → Dict Q → Dict Q → fl.F
  memory_share fl usage allocatable =
      fl.div (fl.of_ℤ (qs.value (memory_of usage))) (fl.of_ℤ (qs.value (memory_of allocatable)))

-- What the cluster answers in one round. The usage of a node or of a container and what a node can
-- allocate are lists of resources.
pub record NodeUsage (Q : Type 0) : Type 0 where
  pub name : Text
  pub usage : Dict Q

pub record Node (Q : Type 0) : Type 0 where
  pub name : Text
  pub allocatable : Dict Q

pub record Container (Q : Type 0) : Type 0 where
  pub name : Text
  pub usage : Dict Q

pub record PodUsage (Q : Type 0) : Type 0 where
  pub name : Text
  pub timestamp : Text
  pub window : Text
  pub containers : List (Container Q)
