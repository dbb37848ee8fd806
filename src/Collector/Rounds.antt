-- ===== src/Collector/Rounds.antt =====
-- cmd/top/main.go, `run`: the choice of the storage, and the rounds of the ticker.
use knative_benchmark.Prelude.{
  List, [], ◌∷◌, Option, none, some, Result, ok, err, if◌then◌else◌, Text, codes, text_eq, Float,
}
use knative_benchmark.Collector.{Storage, Settings, Quantities, NodeUsage, Node}
use knative_benchmark.Collector.Nodes.{collect_node_metrics}
use knative_benchmark.Collector.Pods.{PodCluster, collect_pod_metrics}

-- What the cluster answers in a round, and the times of its metrics as they are printed.
pub record Round (Q E : Type 0) : Type 0 where
  pub usages : Result E (List (NodeUsage Q))
  pub nodes : Result E (List (Node Q))
  pub pods : PodCluster Q E
  pub node_time : Text → Text
  pub pod_time : Text → Text → Text → Text

-- The storage for a type, or `unsupported`. Opening the database may fail.
unfoldable pub choose_storage :
    {A E : Type 0}
    → (storage_type : Text) → (csv : A) → (sqlite : Result E A) → (unsupported : E) → Result E A
choose_storage storage_type csv sqlite unsupported =
    if text_eq storage_type (codes "csv")
    then ok csv
    else if text_eq storage_type (codes "sqlite")
    then sqlite
    else err unsupported

module _ {Q S E : Type 0} (fl : Float) (qs : Quantities Q) (storage : Storage S E fl.F)
    (settings : Settings) where
  round_pods : Round Q E → S → S
  unfolding collect_pod_metrics
  round_pods r s =
      if settings.collect_pods
      then (collect_pod_metrics fl qs r.pod_time storage r.pods settings s).1
      else s

  -- `continue` after an error of the nodes: the pods of this round are not collected.
  after_nodes : Round Q E → Option E × S → S
  unfolding round_pods
  after_nodes r (none, s) = round_pods r s
  after_nodes r (some e, s) = s

  -- One round of `for range ticker.C`; errors are printed.
  unfoldable pub collect_round : Round Q E → S → S
  unfolding after_nodes collect_node_metrics
  collect_round r s =
      if settings.collect_nodes
      then after_nodes r (collect_node_metrics fl qs r.node_time storage r.usages r.nodes s)
      else round_pods r s

  unfoldable pub collect_rounds : List (Round Q E) → S → S
  unfolding collect_round
  collect_rounds [] s = s
  collect_rounds (r ∷ rs) s = collect_rounds rs (collect_round r s)
