-- ===== src/Generator/Lookups.antt =====
-- The lookups of the metrics of a module in `generateConfigModule` of generator/tree.go, with
-- `getIndexNode`.
pub mod Rounds
use snmp_exporter.Common.{
  ℕ, ◌+◌, false, not, ◌&&◌, List, [], ◌∷◌, ◌++◌, map, length, ◌==◌, if◌then◌else◌, Option, some,
  none,
}
use snmp_exporter.Common.Int.{pos}
use snmp_exporter.Common.Text.{Bytes, equal, contains, has_prefix, text, split, join}
use snmp_exporter.Common.Map.{lookup, insert, has_key}
use snmp_exporter.Collector.Labels.{IndexConfig, Lookup}
use snmp_exporter.Collector.Sample.{Metric}
use snmp_exporter.Generator.Tree.{NodeInfo, metric_type}
use snmp_exporter.Generator.Store.{Store, NameMap, node_named}
use snmp_exporter.Generator.ModuleConfig.{SourceLookup, StaticFilter}
use snmp_exporter.Generator.Walks.{add_oid, delete_oid, instances, resolve}
use snmp_exporter.Generator.Indexes.{type_with_enum, sanitize_label_name}
use snmp_exporter.Generator.Result.{
  Result, ok, failed, panic, unknown_index, unknown_index_type, ◌>>=◌,
}

-- `strings.Join(oid[:len(oid)-1], ".")`: all but the last component.
unfoldable pub parent_oid : Bytes → Bytes
parent_oid oid = join (init (split oid b'.')) b'.'
  where
    init : List Bytes → List Bytes
    init [] = []
    init (p ∷ []) = []
    init (p ∷ q ∷ ps) = p ∷ init (q ∷ ps)

-- The loop of `getIndexNode` over the map.
unfoldable pub sibling_named : Bytes → Bytes → Store → NameMap → Option NodeInfo
unfolding parent_oid
sibling_named name metric_oid s [] = none
sibling_named name metric_oid s ((key, a) ∷ names) =
    let rest = sibling_named name metric_oid s names in
    if equal (s a).label name && has_prefix (s a).oid (parent_oid metric_oid)
    then some (s a)
    else rest

unfoldable pub get_index_node : Bytes → NameMap → Store → Bytes → Option NodeInfo
unfolding sibling_named
get_index_node name names s metric_oid = elim (sibling_named name metric_oid s names) [
  | some n ↦ some n
  | none ↦ node_named names s name
]

-- `filterMap`, from OIDs to the indices of the last filter on them.
unfoldable pub add_targets :
    (Bytes → Option NodeInfo)
    → List Bytes
    → List Bytes
    → List (Bytes × List Bytes)
    → List (Bytes × List Bytes)
add_targets name_to_node indices [] m = m
add_targets name_to_node indices (oid ∷ oids) m =
    add_targets name_to_node indices oids (insert (resolve name_to_node oid) indices m)

unfoldable pub filter_map :
    (Bytes → Option NodeInfo)
    → List StaticFilter
    → List (Bytes × List Bytes)
    → List (Bytes × List Bytes)
unfolding add_targets
filter_map name_to_node [] m = m
filter_map name_to_node (f ∷ filters) m =
    filter_map name_to_node filters (add_targets name_to_node f.indices f.targets m)

-- `needToWalk[base+index+"."]` for each index.
unfoldable pub add_instances : Bytes → List Bytes → List Bytes → List Bytes
add_instances base [] oids = oids
add_instances base (index ∷ indices) oids =
    add_instances base indices (add_oid (base ++ index ++ text ".") oids)

-- The instances of a table where some are asked for, the whole column otherwise.
unfoldable pub add_column : Bytes → List Bytes → List Bytes → List Bytes
unfolding add_instances
add_column oid [] oids = add_oid oid oids
add_column oid (index ∷ indices) oids = add_instances oid (index ∷ indices) oids

-- `foundIndexes`.
unfoldable pub count_found : List IndexConfig → List Bytes → ℕ
count_found [] sources = 0
count_found (index ∷ indexes) sources = occurrences sources + count_found indexes sources
  where
    occurrences : List Bytes → ℕ
    occurrences [] = 0
    occurrences (l ∷ ls) =
        let rest = occurrences ls in if equal index.labelname l then 1 + rest else rest

-- "@mib" stands for the hint of the node.
unfoldable pub lookup_hint : Bytes → NodeInfo → Bytes
lookup_hint hint n = if equal hint (text "@mib") then n.hint else hint

unfoldable pub lookup_config : SourceLookup → NodeInfo → Bytes → Lookup
unfolding lookup_hint
lookup_config l n t = record {
  labels = map sanitize_label_name l.source_indexes;
  labelname = sanitize_label_name n.label;
  oid = n.oid;
  type_ = type_with_enum t n;
  display_hint = lookup_hint l.display_hint n;
  enum_values = n.enum_values;
}

-- The lookup that drops a label.
abbrev pub dropping : Bytes → Lookup
dropping label = record {
  labels = [];
  labelname = sanitize_label_name label;
  oid = [];
  type_ = [];
  display_hint = [];
  enum_values = [];
}

-- A metric with `needToWalk` and `toDelete`.
pub record Looking (F64 : Type 0) : Type 0 where
  pub metric : Metric F64
  pub need_to_walk : List Bytes
  pub to_delete : List Bytes

-- The index that a lookup adds where its label is a source of another one.
abbrev pub index_of_lookup : Lookup → List Bytes → List IndexConfig
index_of_lookup l required =
    if contains required l.labelname
    then (record {
      labelname = l.labelname;
      type_ = l.type_;
      fixed_size = pos 0;
      implied = false;
      enum_values = l.enum_values;
    })
      ∷ []
    else []

-- A metric has the filter of an OID that it looks up.
unfoldable pub filter_metric : List (Bytes × List Bytes) → Bytes → Bytes → List Bytes → List Bytes
unfolding add_instances
filter_metric filters oid metric_oid oids = elim (lookup oid filters) [
  | some indices ↦ add_instances (metric_oid ++ text ".") indices (delete_oid metric_oid oids)
  | none ↦ oids
]

module _ {F64 : Type 0} (names : NameMap) (s : Store)
    (table_instances filters : List (Bytes × List Bytes)) (required : List Bytes) where
  -- What a lookup changes, with the node of its name and the type of that.
  unfoldable pub with_lookup : SourceLookup → NodeInfo → Bytes → Looking F64 → Looking F64
  unfolding lookup_config add_column filter_metric
  with_lookup l n t k =
      let made = lookup_config l n t in
      let column = add_column n.oid (instances k.metric.oid table_instances) k.need_to_walk in
      record {
        metric = record (k.metric) {
          lookups = k.metric.lookups ++ made ∷ [];
          indexes = k.metric.indexes ++ index_of_lookup made required;
        };
        need_to_walk = filter_metric filters n.oid k.metric.oid column;
        to_delete = k.to_delete ++ (if l.drop_source_indexes then l.source_indexes else []);
      }

  -- What is done for a lookup that counts.
  unfoldable pub resolve_lookup : SourceLookup → Looking F64 → Result (Looking F64)
  unfolding with_lookup
  resolve_lookup l k =
      if not (has_key names l.lookup)
      then failed (unknown_index l.lookup)
      else (elim (get_index_node l.lookup names s k.metric.oid) [
        | none ↦ panic
        | some n ↦ elim (metric_type n.typ) [
          | none ↦ failed (unknown_index_type n.typ l.lookup)
          | some t ↦ ok (with_lookup l n t k)
        ]
      ])

  -- The round for one lookup, which counts if all its source indexes are present.
  unfoldable pub try_lookup : SourceLookup → Looking F64 → Result (Looking F64)
  unfolding resolve_lookup count_found
  try_lookup l k =
      if count_found k.metric.indexes l.source_indexes == length l.source_indexes
      then resolve_lookup l k
      else ok k

  unfoldable pub apply_lookups : List SourceLookup → Looking F64 → Result (Looking F64)
  unfolding try_lookup
  apply_lookups [] k = ok k
  apply_lookups (l ∷ lookups) k = do next ← try_lookup l k; apply_lookups lookups next

  -- All of this for each metric, with the labels that are dropped at the end.
  unfoldable pub lookup_metrics :
      List SourceLookup → List (Metric F64) → List Bytes → Result (List (Metric F64) × List Bytes)
  unfolding apply_lookups
  lookup_metrics lookups [] oids = ok ([], oids)
  lookup_metrics lookups (m ∷ metrics) oids = do
    k ← apply_lookups lookups (record { metric = m; need_to_walk = oids; to_delete = [] })
    rest ← lookup_metrics lookups metrics k.need_to_walk
    ok (
      record (k.metric) { lookups = k.metric.lookups ++ map dropping k.to_delete } ∷ rest.0,
      rest.1,
    )

-- `requiredAsIndex`.
unfoldable pub required_as_index : List SourceLookup → List Bytes
required_as_index [] = []
required_as_index (l ∷ lookups) = l.source_indexes ++ required_as_index lookups
