-- ===== src/Generator/Metrics/Bare.antt =====
-- The metrics that `generateConfigModule` in generator/tree.go makes have no lookups at first.
use snmp_exporter.Common.{
  refl, ◌≡◌, not, List, [], ◌∷◌, Option, some, none, All, All-append, Bool-cases, Option-cases, inl,
  inr,
}
use mathlib.Core.Path.{subst}
use snmp_exporter.Common.Text.{Bytes}
use snmp_exporter.Collector.Sample.{Metric}
use snmp_exporter.Generator.Tree.{NodeInfo, Node, metric_type, metric_access}
use snmp_exporter.Generator.ModuleConfig.{MetricOverrides}
use snmp_exporter.Generator.Indexes.{indexes_of, sanitize_label_name}
use snmp_exporter.Generator.Metrics.{
  metric_of_node, metrics_of_nodes, metrics_below, nodes_from, is_ignored, add_metric,
}
use snmp_exporter.Generator.Result.{ok, >>=-eq-ok, ok-injective}

abbrev pub HasNoLookups : {F64 : Type 0} → Metric F64 → Type 0
HasNoLookups m = m.lookups ≡ []

module _ {F64 : Type 0} (zero : F64) (name_to_node : Bytes → Option NodeInfo)
    (overrides : List (Bytes × MetricOverrides F64)) where
  -- A metric starts without lookups.
  abbrev StartsBare : Option (Metric F64) → Type 0
  StartsBare none = Unit
  StartsBare (some m) = HasNoLookups m

  metric_of_node-StartsBare :
      (n : NodeInfo) {m : Option (Metric F64)}
      → metric_of_node zero name_to_node overrides n ≡ ok m
      → StartsBare m
  unfolding metric_of_node
  metric_of_node-StartsBare n {m} e = elim (Option-cases (metric_type n.typ)) [
    | inl p ↦ subst StartsBare (ok-injective _ m (rw (p, metric_of_node) at e)) tt
    | inr (t, p) ↦ elim (Bool-cases (not (metric_access n.access))) [
      | inl q ↦ subst StartsBare (ok-injective _ m (rw (p, q, metric_of_node) at e)) tt
      | inr q ↦
          elim (Bool-cases (is_ignored zero name_to_node overrides (sanitize_label_name n.label))) [
            | inl r ↦ subst StartsBare (ok-injective _ m (rw (p, q, r, metric_of_node) at e)) tt
            | inr r ↦
                let (indexes, a, b) =
                  >>=-eq-ok (indexes_of name_to_node n) _ (rw (p, q, r, metric_of_node) at e) in
                elim (Option-cases indexes) [
                  | inl c ↦ subst StartsBare (ok-injective _ m (rw c at b)) tt
                  | inr (l, c) ↦ subst StartsBare (ok-injective _ m (rw c at b)) refl
                ]
          ]
    ]
  ]

  metrics_of_nodes-HasNoLookups :
      (nodes : List NodeInfo) {ms : List (Metric F64)}
      → metrics_of_nodes zero name_to_node overrides nodes ≡ ok ms
      → All HasNoLookups ms
  unfolding metrics_of_nodes
  metrics_of_nodes-HasNoLookups [] {ms} e = subst (All HasNoLookups) (ok-injective [] ms e) tt
  metrics_of_nodes-HasNoLookups (n ∷ nodes) {ms} e =
      let (m, p, q) = >>=-eq-ok (metric_of_node zero name_to_node overrides n) _ e in
      let (rest, r, a) = >>=-eq-ok (metrics_of_nodes zero name_to_node overrides nodes) _ q in
      subst (All HasNoLookups) (ok-injective _ ms a)
        (added m rest (metric_of_node-StartsBare n p) (metrics_of_nodes-HasNoLookups nodes r))
    where
      added :
          (m : Option (Metric F64)) (rest : List (Metric F64))
          → StartsBare m
          → All HasNoLookups rest
          → All HasNoLookups (add_metric zero name_to_node m rest)
      added none rest h hs = hs
      added (some m) rest h hs = (h, hs)

  pub metrics_below-HasNoLookups :
      (tree : Node) (tops : List NodeInfo) {ms : List (Metric F64)}
      → metrics_below zero name_to_node overrides tree tops ≡ ok ms
      → All HasNoLookups ms
  unfolding metrics_below
  metrics_below-HasNoLookups tree [] {ms} e = subst (All HasNoLookups) (ok-injective [] ms e) tt
  metrics_below-HasNoLookups tree (n ∷ tops) {ms} e =
      let (m, p, q) =
        >>=-eq-ok (metrics_of_nodes zero name_to_node overrides (nodes_from n.address tree)) _ e in
      let (rest, r, a) = >>=-eq-ok (metrics_below zero name_to_node overrides tree tops) _ q in
      subst (All HasNoLookups) (ok-injective _ ms a) (
        All-append HasNoLookups m rest (metrics_of_nodes-HasNoLookups _ p)
          (metrics_below-HasNoLookups tree tops r))
