-- ===== src/Collector/Nodes/Laws.antt =====
-- cmd/top/main.go, `collectNodeMetrics`: which metrics end up in a storage.
use mathlib.Core.Path.{fun_ext, subst}
use knative_benchmark.Prelude.{
  ℕ, suc, ◌<◌, ◌≡◌, ◌≢◌, refl, ◌∙◌, sym, List, [], ◌∷◌, ◌++◌, append_assoc, append-nil, map, length,
  take, Option, none, some, Option-cases, Result, ok, err, Text, Dict, Float, text_eq, lookup,
  insert, lookup-insert, if◌then◌else◌, ap, Bool-cases, arith, ◌⊎◌, inl, inr,
}
use knative_benchmark.Collector.{NodeMetrics, PodMetrics, Storage, Quantities, NodeUsage, Node}
use knative_benchmark.Collector.Expected.{node_of}
use knative_benchmark.Collector.Log.{IsLog}
use knative_benchmark.Collector.Loop.{for_each, for_each-R, go_on-none, go_on-some}
use knative_benchmark.Collector.Nodes.{
  or_empty, node_allocatable, node_metrics, store_nodes, with_nodes, collect_node_metrics,
}

module _ {Q S E N P : Type 0} (fl : Float) (qs : Quantities Q) (now : Text → Text)
    (storage : Storage S E fl.F) (Good : S → Type 0) (node_row : NodeMetrics fl.F → N)
    (pod_row : PodMetrics fl.F → P) (nodes : S → List N) (pods : Text → S → List P)
    (log : IsLog storage Good node_row pod_row nodes pods) where
  -- All rows were stored without an error, or an error came after some of them.
  abbrev pub Outcome : List N → S → Option E × S → Type 0
  Outcome rows s r =
      ((r.0 ≡ none) × (nodes r.1 ≡ nodes s ++ rows))
      ⊎ ((k : ℕ) × (k < length rows) × (r.0 ≢ none) × (nodes r.1 ≡ nodes s ++ take k rows))

  store_nodes-Outcome :
      (allocatable : Dict (Dict Q)) (us : List (NodeUsage Q)) (s : S)
      → Good s
      → Outcome
          (map (λ u. node_row (node_metrics fl qs now allocatable u)) us)
          s
          (store_nodes fl qs now storage allocatable us s)
  unfolding store_nodes for_each
  store_nodes-Outcome allocatable [] s good = inl (refl, sym (append-nil (nodes s)))
  store_nodes-Outcome allocatable (u ∷ us) s good =
      let m = node_metrics fl qs now allocatable u in
      let r = storage.store_node_metrics m s in
      let rest = store_nodes fl qs now storage allocatable us in
      elim (Option-cases r.0) [
        | inl fine ↦
            let stored = log.node_stored m s good fine in
            rw (go_on-none rest r fine)
              (elim (store_nodes-Outcome allocatable us r.1 (log.node_good m s good)) [
                | inl (done, all) ↦
                    inl (done, all ∙ rw stored (append_assoc (nodes s) (node_row m ∷ []) _))
                | inr (k, less, failed, some_rows) ↦ inr (
                  suc k,
                  omega arith,
                  failed,
                  some_rows ∙ rw stored (append_assoc (nodes s) (node_row m ∷ []) _),
                )
              ])
        | inr (e, fails) ↦
            let failed : r.0 ≢ none = λ h. cc (h, fails) in
            rw (go_on-some rest r e fails) (
              inr (
                0,
                omega arith,
                failed,
                log.node_failed m s good failed ∙ sym (append-nil (nodes s)),
              ))
      ]

  -- What storing nodes keeps of a state.
  abbrev Keeps : S → S → Type 0
  Keeps s t = Good s → Good t × ((p : Text) → pods p t ≡ pods p s)

  store_nodes-Keeps :
      (allocatable : Dict (Dict Q)) (us : List (NodeUsage Q)) (s : S)
      → Keeps s (store_nodes fl qs now storage allocatable us s).1
  unfolding store_nodes
  store_nodes-Keeps allocatable us s =
      for_each-R Keeps (λ t good. (good, λ p. refl))
        (λ a b c first second good.
          let (good_b, same_b) = first good in
          let (good_c, same_c) = second good_b in (good_c, λ p. same_c p ∙ same_b p))
        (λ u t. storage.store_node_metrics (node_metrics fl qs now allocatable u) t)
        (λ u t good. (
          log.node_good (node_metrics fl qs now allocatable u) t good,
          λ p. log.node_pods (node_metrics fl qs now allocatable u) t p good,
        ))
        us s

  -- What the cluster says of a node, in the last entry for its name.
  abbrev pub last_entry : Text → List (Node Q) → Dict Q → Dict Q
  last_entry name [] found = found
  last_entry name (n ∷ ns) found =
      last_entry name ns (if text_eq n.name name then n.allocatable else found)

  -- The metrics of a node: its usage, and the shares of what it can allocate.
  abbrev pub metrics_of : List (Node Q) → NodeUsage Q → NodeMetrics fl.F
  metrics_of ns u = node_of fl qs (now u.name) (last_entry u.name ns []) u

  node_allocatable-last_entry :
      (name : Text) (ns : List (Node Q)) (m : Dict (Dict Q))
      → or_empty (lookup name (node_allocatable ns m))
        ≡ last_entry name ns (or_empty (lookup name m))
  unfolding node_allocatable
  node_allocatable-last_entry name [] m = refl
  node_allocatable-last_entry name (n ∷ ns) m =
      node_allocatable-last_entry name ns (insert n.name n.allocatable m)
      ∙ ap (last_entry name ns) (elim (Bool-cases (text_eq n.name name)) [
        | inl e ↦ rw (lookup-insert n.name name n.allocatable m, e) refl
        | inr e ↦ rw (lookup-insert n.name name n.allocatable m, e) refl
      ])

  node_metrics-metrics_of :
      (ns : List (Node Q)) (u : NodeUsage Q)
      → node_metrics fl qs now (node_allocatable ns []) u ≡ metrics_of ns u
  unfolding node_metrics
  node_metrics-metrics_of ns u = rw (node_allocatable-last_entry u.name ns []) refl

  -- What `collectNodeMetrics` is to do with the answers of the cluster.
  abbrev pub Collected :
      Result E (List (NodeUsage Q)) → Result E (List (Node Q)) → S → Option E × S → Type 0
  Collected (err e) ns s r = r ≡ (some e, s)
  Collected (ok us) (err e) s r = r ≡ (some e, s)
  Collected (ok us) (ok ns) s r = Outcome (map (λ u. node_row (metrics_of ns u)) us) s r

  -- If the cluster answers one of the two questions with an error, `collectNodeMetrics` returns it and
  -- stores nothing. With both answers it stores the metrics of the nodes in the order of their list,
  -- each against what its node can allocate by the last entry of that name in the list of nodes, and
  -- against nothing without an entry, on any storage that keeps its promise: all of them, and returns
  -- no error, or those before the first that the storage refuses, and returns an error. The rows of
  -- pods stay as they are, and the storage stays good.
  pub collect_node_metrics-Outcome :
      (usages : Result E (List (NodeUsage Q))) (ns : Result E (List (Node Q))) (s : S) (p : Text)
      → Good s
      → let r = collect_node_metrics fl qs now storage usages ns s in
        Collected usages ns s r × (pods p r.1 ≡ pods p s) × Good r.1
  unfolding collect_node_metrics with_nodes
  collect_node_metrics-Outcome (err e) ns s p good = (refl, refl, good)
  collect_node_metrics-Outcome (ok us) (err e) s p good = (refl, refl, good)
  collect_node_metrics-Outcome (ok us) (ok ns) s p good =
      let (good', same) = store_nodes-Keeps (node_allocatable ns []) us s good in
      let plan = fun_ext (λ u. ap node_row (node_metrics-metrics_of ns u)) in
      (
        subst
            (λ f.
              Outcome (map f us) s (store_nodes fl qs now storage (node_allocatable ns []) us s))
            plan (store_nodes-Outcome (node_allocatable ns []) us s good),
        same p,
        good',
      )
