-- ===== src/Collector/Tests.antt =====
-- Rounds of the collector of cmd/top/main.go on both storages. A float is a natural number here, and a
-- quantity is one of milli-units.
use knative_benchmark.Prelude.{
  ℕ, ◌<◌, ◌≡◌, ◌≢◌, refl, true, false, List, [], ◌∷◌, ◌++◌, map, take, length, none, ok, Text,
  codes, pos, inl, ◌⊎◌,
}
use knative_benchmark.Generator.Tests.{naturals}
use knative_benchmark.Collector.{Settings, Quantities, NodeUsage, Node, PodUsage}
use knative_benchmark.Collector.Log.{IsLog}
use knative_benchmark.Collector.Loop.Outcome.{Outcome}
use knative_benchmark.Collector.Nodes.{node_allocatable, node_metrics, collect_node_metrics}
use knative_benchmark.Collector.Nodes.Laws.{collect_node_metrics-Outcome}
use knative_benchmark.Collector.Pods.{PodCluster, namespaces_to_collect, collect_pod_metrics}
use knative_benchmark.Collector.Pods.Laws.{of_namespaces, Stored, collect_pod_metrics-Outcome}
use knative_benchmark.Collector.Rounds.{Round}
use knative_benchmark.Collector.Csv.{
  Files, no_csv_faults, node_path, pod_path, node_record, pod_record, csv_storage, rows_in,
}
use knative_benchmark.Collector.Csv.Rows.{records}
use knative_benchmark.Collector.Csv.Laws.{IsReady, csv_storage-IsLog}
use knative_benchmark.Collector.Sqlite.{Tables, SqliteError, pod_row, sqlite_storage}
use knative_benchmark.Collector.Sqlite.Laws.{Any, rows_of_pod, sqlite_storage-IsLog}

abbrev print : ℕ → Text
print n = n ∷ []

sqlite_storage-IsLog_example :
    IsLog
      (sqlite_storage {F = ℕ})
      Any
      (λ m. m)
      pod_row
      (λ t. t.node_metrics)
      (λ p t. rows_of_pod p t.pod_metrics)
sqlite_storage-IsLog_example = sqlite_storage-IsLog {F = ℕ}

csv_storage-IsLog_example :
    IsLog
      (csv_storage print)
      IsReady
      (node_record print)
      (pod_record print)
      (records node_path)
      (λ p. records (pod_path p))
csv_storage-IsLog_example = csv_storage-IsLog print

abbrev quantities : Quantities ℕ
quantities = record {
  nothing = 0;
  milli_value = λ n. pos n;
  value = λ n. pos n;
  print = λ n. print n;
}

abbrev usages : List (NodeUsage ℕ)
usages =
    record { name = codes "a"; usage = (codes "cpu", 500) ∷ [] }
    ∷ record { name = codes "b"; usage = (codes "memory", 7) ∷ [] }
    ∷ []

abbrev cluster_nodes : List (Node ℕ)
cluster_nodes = record { name = codes "a"; allocatable = (codes "cpu", 100) ∷ [] } ∷ []

abbrev at : Text → Text
at name = codes "noon"

abbrev files : Files
files = record { content = []; faults = record no_csv_faults { stat = true } ∷ [] }

files-IsReady : IsReady files
unfolding rows_in
files-IsReady = record { flushed = (refl, tt); node_file = inl refl; pod_file = λ p. inl refl }

abbrev tables : Tables ℕ
tables = record { node_metrics = []; pod_metrics = []; faults = false ∷ true ∷ [] }

collect_node_metrics-Outcome_example :
    let r =
      collect_node_metrics naturals quantities at sqlite_storage
        (ok usages)
        (ok cluster_nodes)
        tables in
    let rows =
      map (λ u. node_metrics naturals quantities at (node_allocatable cluster_nodes []) u) usages in
    (((r.0 ≡ none) × (r.1.node_metrics ≡ [] ++ rows))
      ⊎ ((k : ℕ) × (k < length rows) × (r.0 ≢ none) × (r.1.node_metrics ≡ [] ++ take k rows)))
    × (rows_of_pod (codes "p") r.1.pod_metrics ≡ [])
    × Any r.1
unfolding node_metrics node_allocatable
collect_node_metrics-Outcome_example =
    collect_node_metrics-Outcome naturals quantities at sqlite_storage Any (λ m. m) pod_row
      (λ t. t.node_metrics) (λ p t. rows_of_pod p t.pod_metrics) (sqlite_storage-IsLog {F = ℕ})
      (ok usages) (ok cluster_nodes) tables (codes "p") tt

abbrev pod_at : Text → Text → Text → Text
pod_at ns pod container = codes "noon"

abbrev pod_usages : List (PodUsage ℕ)
pod_usages =
    record {
      name = codes "p";
      timestamp = codes "t";
      window = codes "30s";
      containers = record { name = codes "c"; usage = (codes "cpu", 10) ∷ [] } ∷ [];
    }
    ∷ []

abbrev cluster : {E : Type 0} → PodCluster ℕ E
cluster = record {
  namespaces = ok (codes "x" ∷ codes "y" ∷ []);
  pod_metrics = λ ns. ok pod_usages;
  node_of_pod = λ ns pod. ok (codes "a");
  allocatable = λ node. ok ((codes "cpu", 100) ∷ []);
}

abbrev settings : Settings
settings = record {
  all_namespaces = true;
  namespaces = codes "x" ∷ [];
  ignore_namespaces = codes "y" ∷ [];
  collect_nodes = true;
  collect_pods = true;
}

collect_pod_metrics-Outcome_example :
    Outcome
      (Stored Any pod_row (λ t. t.node_metrics) (λ p t. rows_of_pod p t.pod_metrics))
      (of_namespaces {E = SqliteError} naturals quantities pod_at cluster
        (namespaces_to_collect settings cluster.namespaces))
      tables
      (collect_pod_metrics naturals quantities pod_at sqlite_storage cluster settings tables)
collect_pod_metrics-Outcome_example =
    collect_pod_metrics-Outcome naturals quantities pod_at sqlite_storage Any (λ m. m) pod_row
      (λ t. t.node_metrics) (λ p t. rows_of_pod p t.pod_metrics) (sqlite_storage-IsLog {F = ℕ})
      cluster settings tables tt

abbrev collected : List Text
collected = codes "x" ∷ codes "x" ∷ []

abbrev a_round : {E : Type 0} → Round ℕ E
a_round = record {
  usages = ok usages;
  nodes = ok cluster_nodes;
  pods = cluster;
  node_time = at;
  pod_time = pod_at;
}
