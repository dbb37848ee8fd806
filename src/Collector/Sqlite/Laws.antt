-- ===== src/Collector/Sqlite/Laws.antt =====
-- cmd/top/main.go, `SQLiteStorage` as a storage.
use knative_benchmark.Prelude.{
  arith, ◌≡◌, refl, ap, Bool-cases, List, [], ◌∷◌, ◌++◌, map, Text, text_eq, if◌then◌else◌, inl,
  inr,
}
use knative_benchmark.Collector.{PodMetrics}
use knative_benchmark.Collector.Log.{IsLog, named}
use knative_benchmark.Collector.Sqlite.{
  PodRow, Tables, pod_row, insert_node, insert_pod, sqlite_storage,
}

-- `SELECT … FROM pod_metrics WHERE pod_name = p`, in the order of the ids.
abbrev pub rows_of_pod : {F : Type 0} → Text → List (PodRow F) → List (PodRow F)
rows_of_pod p [] = []
rows_of_pod p (r ∷ rs) =
    let rest = rows_of_pod p rs in if text_eq r.pod_name p then r ∷ rest else rest

rows_of_pod-append :
    {F : Type 0} (p : Text) (rs : List (PodRow F)) (m : PodMetrics F)
    → rows_of_pod p (rs ++ pod_row m ∷ []) ≡ rows_of_pod p rs ++ map pod_row (named p (m ∷ []))
unfolding pod_row
rows_of_pod-append p [] m = elim (Bool-cases (text_eq m.pod_name p)) [
  | inl same ↦ rw same refl
  | inr other ↦ rw other refl
]
rows_of_pod-append p (r ∷ rs) m = elim (Bool-cases (text_eq r.pod_name p)) [
  | inl same ↦ rw same (ap (λ l. r ∷ l) (rows_of_pod-append p rs m))
  | inr other ↦ rw other (rows_of_pod-append p rs m)
]

-- Every state is good.
abbrev pub Any : {F : Type 0} → Tables F → Type 0
Any t = Unit

-- Whichever calls of the database fail, the two tables keep the promise of a storage, with the
-- metrics of nodes as they are and those of pods without the container's timestamp and window.
pub sqlite_storage-IsLog :
    {F : Type 0}
    → IsLog
        (sqlite_storage {F = F})
        Any
        (λ m. m)
        pod_row
        (λ t. t.node_metrics)
        (λ p t. rows_of_pod p t.pod_metrics)
unfolding sqlite_storage insert_node insert_pod
sqlite_storage-IsLog = record {
  node_good = λ m t good. tt;
  node_stored = λ m t good fine. ground arith;
  node_failed = λ m t good failed. ground arith;
  node_pods = λ m t p good. ground arith;
  pod_good = λ m t good. tt;
  pod_stored = λ m t p good fine. ground (arith, rows_of_pod-append p t.pod_metrics m);
  pod_failed = λ m t p good failed. ground arith;
  pod_nodes = λ m t good. ground arith;
}
