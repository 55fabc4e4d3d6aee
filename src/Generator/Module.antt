-- ===== src/Generator/Module.antt =====
-- `generateConfigModule` of generator/tree.go from its parts, with its static filters and the OIDs
-- that come out; and what generator/main.go does for each module.
pub mod CleanLookups
pub mod Alike
pub mod Labels
pub mod Instances
pub mod LookedUp
pub mod Kept
pub mod Asked
pub mod Fetched
use snmp_exporter.Common.{
  ℕ, ◌≡◌, Bool, true, false, not, ◌&&◌, List, [], ◌∷◌, ◌++◌, map, ◌==◌, if◌then◌else◌, Option, some,
  none,
}
use snmp_exporter.Common.Text.{Bytes, equal, text}
use snmp_exporter.Common.Map.{insert}
use snmp_exporter.Collector.Scrape.{DynamicFilter}
use snmp_exporter.Collector.Sample.{Metric}
use snmp_exporter.Generator.Minimize.{minimize_oids}
use snmp_exporter.Generator.Tree.{NodeInfo}
use snmp_exporter.Generator.Store.{Tree, Store, NameMap, snapshot, node_named, walk_node}
use snmp_exporter.Generator.ModuleConfig.{ModuleConfig, StaticFilter}
use snmp_exporter.Generator.Walks.{Tops, top_nodes, override_types, delete_oid, resolve}
use snmp_exporter.Generator.Metrics.{metrics_below}
use snmp_exporter.Generator.Lookups.{filter_map, lookup_metrics, required_as_index, add_instances}
use snmp_exporter.Generator.Addresses.{sanitize_indexes, check_addresses}
use snmp_exporter.Generator.Overrides.{override_metrics}
use snmp_exporter.Generator.Result.{Result, ok, failed, panic, ◌>>=◌}

-- `config.Module` without `WalkParams`.
pub record Generated (F64 : Type 0) : Type 0 where
  pub walk : List Bytes
  pub get : List Bytes
  pub metrics : List (Metric F64)
  pub filters : List DynamicFilter

-- The instances of a static filter in the place of its targets.
unfoldable pub filter_targets :
    (Bytes → Option NodeInfo) → List Bytes → List Bytes → List Bytes → List Bytes
filter_targets name_to_node indices [] oids = oids
filter_targets name_to_node indices (target ∷ targets) oids =
    let oid = resolve name_to_node target in
    filter_targets name_to_node indices targets
      (add_instances (oid ++ text ".") indices (delete_oid oid oids))

unfoldable pub filter_static :
    (Bytes → Option NodeInfo) → List StaticFilter → List Bytes → List Bytes
unfolding filter_targets
filter_static name_to_node [] oids = oids
filter_static name_to_node (f ∷ filters) oids =
    filter_static name_to_node filters (filter_targets name_to_node f.indices f.targets oids)

-- The text before a dot at its end; `none` without a dot there.
unfoldable pub before_dot : Bytes → Option Bytes
before_dot [] = none
before_dot (c ∷ []) = if c == b'.' then some [] else none
before_dot (c ∷ d ∷ s) = elim (before_dot (d ∷ s)) [ some r ↦ some (c ∷ r) | none ↦ none ]

-- `out.Walk` and `out.Get`; the empty text has no last byte.
unfoldable pub split_gets : List Bytes → Result (List Bytes × List Bytes)
unfolding before_dot
split_gets [] = ok ([], [])
split_gets ([] ∷ oids) = panic
split_gets ((c ∷ s) ∷ oids) = do
  rest ← split_gets oids
  ok (elim (before_dot (c ∷ s)) [
    | some oid ↦ (rest.0, oid ∷ rest.1)
    | none ↦ ((c ∷ s) ∷ rest.0, rest.1)
  ])

-- The names of a module in generator/main.go, of which the nodes are a copy of the prepared ones.
unfoldable pub add_module_names : Store → ℕ → List ℕ → NameMap → NameMap
add_module_names s a children names =
    let plain = insert (s a).label a (insert (s a).oid a names) in
    if equal (s a).mib [] then plain else insert ((s a).mib ++ text "::" ++ (s a).label) a plain

module _ {F64 : Type 0} (zero : F64) (cfg : ModuleConfig F64) where
  -- The end: the OIDs that are left, walked or got.
  unfoldable pub emit_module : List (Metric F64) → List Bytes → Result (Generated F64)
  unfolding split_gets
  emit_module metrics oids = do
    (walk, get) ← split_gets (minimize_oids oids)
    ok (record { walk = walk; get = get; metrics = metrics; filters = cfg.dynamic_filters })

  -- What follows the metrics.
  unfoldable pub finish_module : NameMap → Store → Tops → List (Metric F64) → Result (Generated F64)
  unfolding emit_module filter_static lookup_metrics required_as_index filter_map check_addresses
  finish_module names s tops metrics = do
    let name_to_node = node_named names s
    let filters = filter_map name_to_node cfg.static_filters []
    (looked, oids) ←
        lookup_metrics names s tops.table_instances filters (required_as_index cfg.lookups)
          cfg.lookups metrics tops.need_to_walk
    let checked =
        check_addresses name_to_node tops.table_instances (map sanitize_indexes looked) oids
    emit_module (override_metrics name_to_node cfg.overrides checked.0)
        (filter_static name_to_node cfg.static_filters checked.1)

  unfoldable pub generate_config_module : Tree → NameMap → Store → Result (Generated F64)
  unfolding finish_module override_types top_nodes metrics_below
  generate_config_module tree names nodes = do
    let s = override_types names cfg.overrides nodes
    let name_to_node = node_named names s
    tops ← top_nodes (snapshot s tree) name_to_node cfg.walk
    metrics ← metrics_below zero name_to_node cfg.overrides (snapshot s tree) tops.metric_nodes
    finish_module names s tops metrics

  unfoldable pub generate_config : Tree → Store → Result (Generated F64)
  unfolding generate_config_module add_module_names walk_node
  generate_config tree s = generate_config_module tree (walk_node (add_module_names s) tree []) s
