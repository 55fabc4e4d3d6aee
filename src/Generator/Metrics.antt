-- ===== src/Generator/Metrics.antt =====
-- The metrics of a module in `generateConfigModule` of generator/tree.go, before the lookups.
pub mod Bare
use snmp_exporter.Common.{
  ℕ, Bool, false, not, List, [], ◌∷◌, ◌++◌, ◌==◌, if◌then◌else◌, Option, some, none,
}
use snmp_exporter.Common.Text.{Bytes, text}
use snmp_exporter.Common.Map.{lookup}
use snmp_exporter.Collector.Labels.{IndexConfig}
use snmp_exporter.Collector.Sample.{Metric}
use snmp_exporter.Generator.Tree.{
  NodeInfo, Node, Nodes, node, nil, cons, metric_type, metric_access,
}
use snmp_exporter.Generator.ModuleConfig.{MetricOverrides}
use snmp_exporter.Generator.Indexes.{indexes_of, sanitize_label_name}
use snmp_exporter.Generator.Result.{Result, ok, ◌>>=◌}

-- The nodes in the order of `walkNode`.
unfoldable mutual
  pub nodes_of : Node → List NodeInfo
  nodes_of (node i children) = i ∷ nodes_of_all children

  pub nodes_of_all : Nodes → List NodeInfo
  nodes_of_all nil = []
  nodes_of_all (cons child rest) = nodes_of child ++ nodes_of_all rest

-- The nodes that a walk from the pointer `address` meets.
unfoldable mutual
  unfolding nodes_of

  pub nodes_from : ℕ → Node → List NodeInfo
  nodes_from address (node i children) =
      if i.address == address then i ∷ nodes_of_all children else nodes_from_any address children

  pub nodes_from_any : ℕ → Nodes → List NodeInfo
  nodes_from_any address nil = []
  nodes_from_any address (cons child rest) = nodes_from address child ++ nodes_from_any address rest

-- `zero` is the float of a field that is not set.
module _ {F64 : Type 0} (zero : F64) (name_to_node : Bytes → Option NodeInfo) where
  abbrev pub metric_config : NodeInfo → Bytes → List IndexConfig → Metric F64
  metric_config n t indexes = record {
    name = sanitize_label_name n.label;
    oid = n.oid;
    type_ = t;
    help = n.description ++ text " - " ++ n.oid;
    indexes = indexes;
    lookups = [];
    regexp_extracts = [];
    date_time_pattern = [];
    enum_values = n.enum_values;
    offset = zero;
    scale = zero;
    display_hint = [];
  }

  unfoldable pub is_ignored : List (Bytes × MetricOverrides F64) → Bytes → Bool
  is_ignored overrides name = elim (lookup name overrides) [
    | some params ↦ params.ignore
    | none ↦ false
  ]

  -- The metric of a node, if it is a usable one.
  unfoldable pub metric_of_node :
      List (Bytes × MetricOverrides F64) → NodeInfo → Result (Option (Metric F64))
  unfolding is_ignored
  metric_of_node overrides n = elim (metric_type n.typ) [
    | none ↦ ok none
    | some t ↦
        if not (metric_access n.access)
        then ok none
        else if is_ignored overrides (sanitize_label_name n.label)
        then ok none
        else do
          indexes ← indexes_of name_to_node n
          ok (elim indexes [ some l ↦ some (metric_config n t l) | none ↦ none ])
  ]

  -- `append`, where there is a metric.
  abbrev pub add_metric : Option (Metric F64) → List (Metric F64) → List (Metric F64)
  add_metric none metrics = metrics
  add_metric (some m) metrics = m ∷ metrics

  unfoldable pub metrics_of_nodes :
      List (Bytes × MetricOverrides F64) → List NodeInfo → Result (List (Metric F64))
  unfolding metric_of_node
  metrics_of_nodes overrides [] = ok []
  metrics_of_nodes overrides (n ∷ nodes) = do
    m ← metric_of_node overrides n
    rest ← metrics_of_nodes overrides nodes
    ok (add_metric m rest)

  -- Those below the top-level nodes.
  unfoldable pub metrics_below :
      List (Bytes × MetricOverrides F64) → Node → List NodeInfo → Result (List (Metric F64))
  unfolding metrics_of_nodes nodes_from
  metrics_below overrides tree [] = ok []
  metrics_below overrides tree (n ∷ tops) = do
    metrics ← metrics_of_nodes overrides (nodes_from n.address tree)
    rest ← metrics_below overrides tree tops
    ok (metrics ++ rest)
