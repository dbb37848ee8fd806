-- ===== src/Collector/Log.antt =====
-- cmd/top/main.go, `Storage`: what a storage promises. It is a log of rows for the nodes, and one for
-- each name of a pod; in which order the two kinds are stored is forgotten.
use knative_benchmark.Prelude.{
  List, [], ◌∷◌, ◌++◌, map, none, ◌≡◌, ◌≢◌, Text, text_eq, if◌then◌else◌,
}
use knative_benchmark.Collector.{NodeMetrics, PodMetrics, Storage}

-- The metrics of the pods with this name.
abbrev pub named : {F : Type 0} → Text → List (PodMetrics F) → List (PodMetrics F)
named p [] = []
named p (m ∷ ms) = let rest = named p ms in if text_eq m.pod_name p then m ∷ rest else rest

-- The states in which a storage promises this are `Good`; `nodes` and `pods` are what it holds there,
-- rows that `node_row` and `pod_row` make of the metrics. A call without an error adds the row of its
-- metrics behind the others, and a call with an error adds nothing.
pub record IsLog {S E F N P : Type 0} (storage : Storage S E F) (Good : S → Type 0)
    (node_row : NodeMetrics F → N) (pod_row : PodMetrics F → P) (nodes : S → List N)
    (pods : Text → S → List P) : Type 0 where
  pub node_good : (m : NodeMetrics F) (s : S) → Good s → Good (storage.store_node_metrics m s).1
  pub node_stored :
      (m : NodeMetrics F) (s : S)
      → Good s
      → (storage.store_node_metrics m s).0 ≡ none
      → nodes (storage.store_node_metrics m s).1 ≡ nodes s ++ node_row m ∷ []
  pub node_failed :
      (m : NodeMetrics F) (s : S)
      → Good s
      → (storage.store_node_metrics m s).0 ≢ none
      → nodes (storage.store_node_metrics m s).1 ≡ nodes s
  pub node_pods :
      (m : NodeMetrics F) (s : S) (p : Text)
      → Good s
      → pods p (storage.store_node_metrics m s).1 ≡ pods p s
  pub pod_good : (m : PodMetrics F) (s : S) → Good s → Good (storage.store_pod_metrics m s).1
  pub pod_stored :
      (m : PodMetrics F) (s : S) (p : Text)
      → Good s
      → (storage.store_pod_metrics m s).0 ≡ none
      → pods p (storage.store_pod_metrics m s).1 ≡ pods p s ++ map pod_row (named p (m ∷ []))
  pub pod_failed :
      (m : PodMetrics F) (s : S) (p : Text)
      → Good s
      → (storage.store_pod_metrics m s).0 ≢ none
      → pods p (storage.store_pod_metrics m s).1 ≡ pods p s
  pub pod_nodes :
      (m : PodMetrics F) (s : S) → Good s → nodes (storage.store_pod_metrics m s).1 ≡ nodes s
