-- ===== src/Collector/Pods/Laws.antt =====
-- cmd/top/main.go, `collectPodMetrics`: which metrics end up in a storage.
use mathlib.Core.Path.{subst}
use knative_benchmark.Prelude.{
  ◌≡◌, ◌≢◌, refl, ap, ◌∙◌, sym, Bool-cases, Option-cases, List, [], ◌∷◌, ◌++◌, append_assoc,
  append-nil, map, none, some, Result, ok, err, if◌then◌else◌, Text, is_empty, text_eq, Dict, Float,
  arith, inl, inr,
}
use knative_benchmark.Collector.{
  Option, Settings, NodeMetrics, PodMetrics, Storage, Quantities, PodUsage,
}
use knative_benchmark.Collector.Log.{IsLog, named}
use knative_benchmark.Collector.Loop.Outcome.{for_each-Outcome, Plan, planned, Outcome}
use knative_benchmark.Collector.Expected.{pod_of}
use knative_benchmark.Collector.Pods.{
  namespaces_to_collect, collect_pod, collect_namespace, each_pod, store_containers, each_namespace,
  collect_pod_metrics, on_node, PodCluster, container_metrics,
}

pub named-append :
    {F : Type 0} (p : Text) (ms ns : List (PodMetrics F))
    → named p (ms ++ ns) ≡ named p ms ++ named p ns
named-append p [] ns = refl
named-append p (m ∷ ms) ns = elim (Bool-cases (text_eq m.pod_name p)) [
  | inl same ↦ rw same (ap (λ r. m ∷ r) (named-append p ms ns))
  | inr other ↦ rw other (named-append p ms ns)
]

pub map_append :
    {A B : Type 0} (f : A → B) (xs ys : List A) → map f (xs ++ ys) ≡ map f xs ++ map f ys
map_append f [] ys = refl
map_append f (x ∷ xs) ys = ap (λ r. f x ∷ r) (map_append f xs ys)

planned_one :
    {A E M : Type 0} (f : A → M) (xs : List A)
    → planned {E = E} (λ x. (f x ∷ [], none)) xs ≡ (map f xs, none)
planned_one f [] = refl
planned_one {E} f (x ∷ xs) = rw (planned_one {E = E} f xs) refl

-- The metrics of one container each, that a round is to store if no storage call fails: those of the
-- pods that are on a node, for the namespaces, the pods of a namespace and the containers of a pod in
-- their orders, up to the first call to the cluster that fails; and the error of that call.
module _ {Q E : Type 0} (fl : Float) (qs : Quantities Q) (now : Text → Text → Text → Text)
    (cluster : PodCluster Q E) where
  abbrev pub of_containers : Text → PodUsage Q → Text → Result E (Dict Q) → Plan E (PodMetrics fl.F)
  of_containers ns u node (err e) = ([], some e)
  of_containers ns u node (ok allocatable) =
      (map (λ c. pod_of fl qs (now ns u.name c.name) node allocatable u c) u.containers, none)

  abbrev pub of_node : Text → PodUsage Q → Result E Text → Plan E (PodMetrics fl.F)
  of_node ns u (err e) = ([], some e)
  of_node ns u (ok node) =
      if is_empty node then ([], none) else of_containers ns u node (cluster.allocatable node)

  abbrev pub of_pods : Text → Result E (List (PodUsage Q)) → Plan E (PodMetrics fl.F)
  of_pods ns (err e) = ([], some e)
  of_pods ns (ok us) = planned (λ u. of_node ns u (cluster.node_of_pod ns u.name)) us

  abbrev pub of_namespaces : Result E (List Text) → Plan E (PodMetrics fl.F)
  of_namespaces (err e) = ([], some e)
  of_namespaces (ok names) = planned (λ ns. of_pods ns (cluster.pod_metrics ns)) names

module _ {S F N P : Type 0} (Good : S → Type 0) (pod_row : PodMetrics F → P) (nodes : S → List N)
    (pods : Text → S → List P) where
  -- The state is good, the rows of `ms` were added to the logs of their pods, and nothing else
  -- changed.
  abbrev pub Stored : List (PodMetrics F) → S → S → Type 0
  Stored ms s t =
      Good t × ((p : Text) → pods p t ≡ pods p s ++ map pod_row (named p ms)) × (nodes t ≡ nodes s)

module _ {Q S E N P : Type 0} (fl : Float) (qs : Quantities Q) (now : Text → Text → Text → Text)
    (storage : Storage S E fl.F) (Good : S → Type 0) (node_row : NodeMetrics fl.F → N)
    (pod_row : PodMetrics fl.F → P) (nodes : S → List N) (pods : Text → S → List P)
    (log : IsLog storage Good node_row pod_row nodes pods) (cluster : PodCluster Q E) where
  abbrev Added : List (PodMetrics fl.F) → S → S → Type 0
  Added ms s t = Good s → Stored Good pod_row nodes pods ms s t

  nothing_added : (s : S) → Added [] s s
  nothing_added s good = (good, λ p. sym (append-nil (pods p s)), refl)

  chain :
      (ms ns : List (PodMetrics fl.F)) (s t u : S)
      → Added ms s t
      → Added ns t u
      → Added (ms ++ ns) s u
  chain ms ns s t u first second good =
      let (good_t, pods_t, nodes_t) = first good in
      let (good_u, pods_u, nodes_u) = second good_t in
      (
        good_u,
        λ p.
            pods_u p
            ∙ rw (pods_t p, named-append p ms ns, map_append pod_row (named p ms) (named p ns))
                (append_assoc (pods p s) _ _),
        nodes_u ∙ nodes_t,
      )

  store_one :
      (m : PodMetrics fl.F) (s : S) → Outcome Added (m ∷ [], none) s (storage.store_pod_metrics m s)
  store_one m s = elim (Option-cases (storage.store_pod_metrics m s).0) [
    | inl fine ↦ inl (
      fine,
      λ good. (log.pod_good m s good, λ p. log.pod_stored m s p good fine, log.pod_nodes m s good),
    )
    | inr (e, fails) ↦
        let failed : (storage.store_pod_metrics m s).0 ≢ none = λ h. cc (h, fails) in
        inr (
          failed,
          0,
          omega arith,
          λ good. (
            log.pod_good m s good,
            λ p. log.pod_failed m s p good failed ∙ sym (append-nil (pods p s)),
            log.pod_nodes m s good,
          ),
        )
  ]

  -- A call to the cluster failed before anything was stored.
  refused : (e : E) (s : S) → Outcome Added ([], some e) s (some e, s)
  refused e s = inl (refl, nothing_added s)

  containers-Outcome :
      (ns : Text) (u : PodUsage Q) (node : Text) (answer : Result E (Dict Q)) (s : S)
      → Outcome Added
          (of_containers fl qs now cluster ns u node answer)
          s
          (store_containers fl qs now storage cluster ns u node answer s)
  unfolding store_containers container_metrics
  containers-Outcome ns u node (err e) s = refused e s
  containers-Outcome ns u node (ok allocatable) s =
      let row = container_metrics fl qs now ns u node allocatable in
      subst
        (λ p.
          Outcome Added p s
            (store_containers fl qs now storage cluster ns u node (ok allocatable) s))
        (planned_one {E = E} row u.containers)
        (for_each-Outcome Added nothing_added chain (λ c t. storage.store_pod_metrics (row c) t)
          (λ c. (row c ∷ [], none)) (λ c t. store_one (row c) t) u.containers s)

  node-Outcome :
      (ns : Text) (u : PodUsage Q) (answer : Result E Text) (s : S)
      → Outcome Added
          (of_node fl qs now cluster ns u answer)
          s
          (on_node fl qs now storage cluster ns u answer s)
  unfolding on_node
  node-Outcome ns u (err e) s = refused e s
  node-Outcome ns u (ok node) s = elim (Bool-cases (is_empty node)) [
    | inl none_yet ↦ rw none_yet (inl (refl, nothing_added s))
    | inr scheduled ↦ rw scheduled (containers-Outcome ns u node (cluster.allocatable node) s)
  ]

  pods-Outcome :
      (ns : Text) (answer : Result E (List (PodUsage Q))) (s : S)
      → Outcome Added
          (of_pods fl qs now cluster ns answer)
          s
          (each_pod fl qs now storage cluster ns answer s)
  unfolding each_pod collect_pod
  pods-Outcome ns (err e) s = refused e s
  pods-Outcome ns (ok us) s =
      for_each-Outcome Added nothing_added chain
        (λ u t. collect_pod fl qs now storage cluster ns u t)
        (λ u. of_node fl qs now cluster ns u (cluster.node_of_pod ns u.name))
        (λ u t. node-Outcome ns u (cluster.node_of_pod ns u.name) t) us s

  namespaces-Outcome :
      (answer : Result E (List Text)) (s : S)
      → Outcome Added
          (of_namespaces fl qs now cluster answer)
          s
          (each_namespace fl qs now storage cluster answer s)
  unfolding each_namespace collect_namespace
  namespaces-Outcome (err e) s = refused e s
  namespaces-Outcome (ok names) s =
      for_each-Outcome Added nothing_added chain
        (λ ns t. collect_namespace fl qs now storage cluster ns t)
        (λ ns. of_pods fl qs now cluster ns (cluster.pod_metrics ns))
        (λ ns t. pods-Outcome ns (cluster.pod_metrics ns) t) names s

  from_good :
      (ms : Plan E (PodMetrics fl.F)) (s : S) (r : Option E × S)
      → Good s
      → Outcome Added ms s r
      → Outcome (Stored Good pod_row nodes pods) ms s r
  from_good ms s r good (inl (done, added)) = inl (done, added good)
  from_good ms s r good (inr (failed, k, few, added)) = inr (failed, k, few, added good)

  -- On any storage that keeps its promise, `collectPodMetrics` adds, to the log of each pod's name,
  -- the metrics of the containers of the pods that are on a node, in the order of the namespaces to
  -- collect, of their pods and of their containers, up to the first call to the cluster that fails:
  -- all of them, and then returns the error of that call, or none if none failed; or some first ones
  -- of them but not all, and then returns an error. The shares are those of what the pod's node can
  -- allocate. The storage stays good, and its rows of nodes as they are.
  pub collect_pod_metrics-Outcome :
      (settings : Settings) (s : S)
      → Good s
      → Outcome
          (Stored Good pod_row nodes pods)
          (of_namespaces fl qs now cluster (namespaces_to_collect settings cluster.namespaces))
          s
          (collect_pod_metrics fl qs now storage cluster settings s)
  unfolding collect_pod_metrics
  collect_pod_metrics-Outcome settings s good =
      from_good _ s _ good
        (namespaces-Outcome (namespaces_to_collect settings cluster.namespaces) s)
