-- ===== src/Collector/MetricTree.antt =====
-- The tree of metrics of collector/collector.go: `MetricNode`, `buildMetricTree`, and the search of
-- `collect` for the metric of a variable. `M` is the type of the metrics, of which the tree uses
-- only the OID.
pub mod Laws
use snmp_exporter.Common.{
  ◌≡◌, Bool, true, false, ◌&&◌, List, [], ◌∷◌, if◌then◌else◌, Option, some, none,
}
use snmp_exporter.Common.Int.{ℤ}
use snmp_exporter.Common.Text.{Bytes}
use snmp_exporter.Collector.Oid.{Oid, oid_to_list}
use snmp_exporter.Collector.Index.{int_eq}

-- `MetricNode`, with the children as the entries of its map.
mutual
  pub data MetricNode (M : Type 0) : Type 0 where
    node : Option M → Children M → MetricNode M

  pub data Children (M : Type 0) : Type 0 where
    nil : Children M
    cons : ℤ → MetricNode M → Children M → Children M

module _ {M : Type 0} where
  abbrev pub empty_node : MetricNode M
  empty_node = node none nil

  -- `head.children[o]`.
  unfoldable pub child : ℤ → Children M → Option (MetricNode M)
  child o nil = none
  child o (cons p n cs) = if int_eq p o then some n else child o cs

  -- A change to `head.children[o]`, which is made first where it is missing.
  unfoldable pub update_child : (MetricNode M → MetricNode M) → ℤ → Children M → Children M
  update_child f o nil = cons o (f empty_node) nil
  update_child f o (cons p n cs) =
      if int_eq p o then cons p (f n) cs else cons p n (update_child f o cs)

  -- The walk down to the node of a metric, which gets it.
  unfoldable pub insert : Oid → M → MetricNode M → MetricNode M
  insert [] m (node x cs) = node (some m) cs
  insert (o ∷ oid) m (node x cs) = node x (update_child (insert oid m) o cs)

  unfoldable pub insert_all : (M → Bytes) → List M → MetricNode M → MetricNode M
  insert_all oid_of [] tree = tree
  insert_all oid_of (m ∷ ms) tree = insert_all oid_of ms (insert (oid_to_list (oid_of m)) m tree)

  -- `buildMetricTree`.
  unfoldable pub build_metric_tree : (M → Bytes) → List M → MetricNode M
  build_metric_tree oid_of metrics = insert_all oid_of metrics empty_node

  abbrev pub metric : MetricNode M → Option M
  metric (node x cs) = x

  -- The search of `collect`: the first node with a metric on the way down, and the oids behind it.
  unfoldable pub find : Oid → MetricNode M → Option (M × Oid)
  find [] n = none
  find (o ∷ oid) (node x cs) = elim (child o cs) [
    | none ↦ none
    | some n ↦ elim (metric n) [ some m ↦ some (m, oid) | none ↦ find oid n ]
  ]
