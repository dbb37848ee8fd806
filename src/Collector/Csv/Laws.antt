-- ===== src/Collector/Csv/Laws.antt =====
-- cmd/top/main.go, `CSVStorage` as a storage.
use knative_benchmark.Prelude.{
  ◌≡◌, ◌≢◌, refl, ap, ◌∙◌, sym, true, false, Bool-cases, List, append-nil, drop, Text, codes,
  text_eq, text_eq_iff, has_suffix, has_suffix_of_append, trim_suffix, trim_suffix-append, text_ne,
  inl, inr,
}
use knative_benchmark.Collector.Log.{IsLog}
use knative_benchmark.Collector.Csv.{
  Files, rows_in, store_row, node_path, pod_path, node_header, pod_header, node_record, pod_record,
  csv_storage,
}
use knative_benchmark.Collector.Csv.Rows.{
  IsFlushed, records, HasHeader, later-flushed, store_row-path, store_row-stored, store_row-failed,
  store_row-faults, store_row-HasHeader,
}

-- No pod has the file of the nodes.
node_path-ne-pod_path : (p : Text) → node_path ≢ pod_path p
unfolding pod_path
node_path-ne-pod_path p e =
    let is_pod : has_suffix (pod_path p) (codes "_pod_metrics.csv") ≡ true =
      has_suffix_of_append p (codes "_pod_metrics.csv") in
    let is_node : has_suffix node_path (codes "_pod_metrics.csv") ≡ false = refl in
    cc (rw (← e) at is_pod, is_node)

pod_path_injective : (p q : Text) → pod_path p ≡ pod_path q → p ≡ q
unfolding pod_path
pod_path_injective p q e =
    sym (trim_suffix-append p (codes "_pod_metrics.csv"))
    ∙ ap (λ r. trim_suffix r (codes "_pod_metrics.csv")) e
    ∙ trim_suffix-append q (codes "_pod_metrics.csv")

-- No flush to come fails, and every file is empty or begins with its header.
pub record IsReady (s : Files) : Type 0 where
  pub flushed : IsFlushed s
  pub node_file : HasHeader node_header (rows_in node_path s.content)
  pub pod_file : (p : Text) → HasHeader pod_header (rows_in (pod_path p) s.content)

store_node-IsReady :
    (row : List Text) (s : Files) → IsReady s → IsReady (store_row node_path node_header row s).1
store_node-IsReady row s ready = record {
  flushed =
      rw (store_row-faults node_path node_header row s) (later-flushed s.faults ready.flushed);
  node_file = store_row-HasHeader node_path node_header row s ready.node_file;
  pod_file = λ p.
      rw
        (store_row-path node_path node_header row s (pod_path p)
          (text_ne _ _ (node_path-ne-pod_path p)))
        (ready.pod_file p);
}

other_pod : (p q : Text) → text_eq p q ≡ false → text_eq (pod_path p) (pod_path q) ≡ false
other_pod p q differ =
    text_ne _ _
      (λ (e : pod_path p ≡ pod_path q). cc ((text_eq_iff p q).1 (pod_path_injective p q e), differ))

store_pod-IsReady :
    (name : Text) (row : List Text) (s : Files)
    → IsReady s
    → IsReady (store_row (pod_path name) pod_header row s).1
store_pod-IsReady name row s ready = record {
  flushed =
      rw (store_row-faults (pod_path name) pod_header row s) (later-flushed s.faults ready.flushed);
  node_file =
      rw
        (store_row-path (pod_path name) pod_header row s node_path
          (text_ne _ _ (λ e. node_path-ne-pod_path name (sym e))))
        ready.node_file;
  pod_file = λ p. elim (Bool-cases (text_eq name p)) [
    | inl same ↦
        rw (← (text_eq_iff name p).0 same)
          (store_row-HasHeader (pod_path name) pod_header row s (ready.pod_file name))
    | inr differ ↦
        rw (store_row-path (pod_path name) pod_header row s (pod_path p) (other_pod name p differ))
          (ready.pod_file p)
  ];
}

-- While no flush fails, the files keep the promise of a storage behind their headers, whichever other
-- calls fail: the file of the nodes, and for each pod's name a file of its own; every file is empty or
-- begins with its header, and stays so.
pub csv_storage-IsLog :
    {F : Type 0} (print4 : F → Text)
    → IsLog
        (csv_storage print4)
        IsReady
        (node_record print4)
        (pod_record print4)
        (records node_path)
        (λ p. records (pod_path p))
unfolding csv_storage
csv_storage-IsLog print4 = record {
  node_good = λ m s ready. store_node-IsReady (node_record print4 m) s ready;
  node_stored = λ m s ready fine.
      store_row-stored node_path node_header (node_record print4 m) s ready.flushed fine;
  node_failed = λ m s ready failed.
      ap (drop 1) (store_row-failed node_path node_header (node_record print4 m) s failed);
  node_pods = λ m s p ready. ap (drop 1) (
      store_row-path node_path node_header (node_record print4 m) s (pod_path p)
        (text_ne _ _ (node_path-ne-pod_path p)));
  pod_good = λ m s ready. store_pod-IsReady m.pod_name (pod_record print4 m) s ready;
  pod_stored = λ m s p ready fine. elim (Bool-cases (text_eq m.pod_name p)) [
    | inl same ↦ rw same (
        rw (← (text_eq_iff m.pod_name p).0 same) (
          store_row-stored (pod_path m.pod_name) pod_header (pod_record print4 m) s ready.flushed
            fine))
    | inr differ ↦ rw differ (
        ap (drop 1) (
          store_row-path (pod_path m.pod_name) pod_header (pod_record print4 m) s (pod_path p)
            (other_pod m.pod_name p differ))
        ∙ sym (append-nil (records (pod_path p) s)))
  ];
  pod_failed = λ m s p ready failed. elim (Bool-cases (text_eq m.pod_name p)) [
    | inl same ↦ rw (← (text_eq_iff m.pod_name p).0 same) (
        ap (drop 1)
          (store_row-failed (pod_path m.pod_name) pod_header (pod_record print4 m) s failed))
    | inr differ ↦ ap (drop 1) (
        store_row-path (pod_path m.pod_name) pod_header (pod_record print4 m) s (pod_path p)
          (other_pod m.pod_name p differ))
  ];
  pod_nodes = λ m s ready. ap (drop 1) (
      store_row-path (pod_path m.pod_name) pod_header (pod_record print4 m) s node_path
        (text_ne _ _ (λ e. node_path-ne-pod_path m.pod_name (sym e))));
}
