-- ===== src/Generator/Module/Labels.antt =====
-- The label names that `generateConfigModule` in generator/tree.go makes.
use snmp_exporter.Common.{All-map, sym, ◌≡◌, ap, List, [], ◌∷◌, map, All}
use mathlib.Core.Path.{subst}
use snmp_exporter.Common.Text.{Bytes}
use snmp_exporter.Collector.Labels.{IndexConfig, Lookup}
use snmp_exporter.Collector.Sample.{Metric}
use snmp_exporter.Generator.Minimize.{minimize_oids}
use snmp_exporter.Generator.Store.{Tree, Store, NameMap, node_named, snapshot}
use snmp_exporter.Generator.ModuleConfig.{ModuleConfig}
use snmp_exporter.Generator.Walks.{Tops, override_types, top_nodes}
use snmp_exporter.Generator.Metrics.{metrics_below}
use snmp_exporter.Generator.Lookups.{filter_map, required_as_index, lookup_metrics}
use snmp_exporter.Generator.Addresses.{sanitize_index, sanitize_indexes}
use snmp_exporter.Generator.Module.{
  Generated, finish_module, emit_module, split_gets, generate_config_module,
}
use snmp_exporter.Generator.Module.Alike.{check_addresses-Has, override_metrics-Has}
use snmp_exporter.Generator.Metrics.Bare.{HasNoLookups, metrics_below-HasNoLookups}
use snmp_exporter.Generator.Result.{ok, >>=-eq-ok, ok-injective}
use snmp_exporter.Generator.Module.CleanLookups.{
  IsClean, IsCleanLookup, IsCleanMetric, HasCleanLookups, sanitize_label_name-IsClean,
  lookup_metrics-HasCleanLookups,
}

abbrev IsCleanPair : List IndexConfig → List Lookup → Type 0
IsCleanPair indexes lookups = All (λ i. IsClean i.labelname) indexes × All IsCleanLookup lookups

map-sanitize_index-IsClean :
    (l : List IndexConfig) → All (λ i. IsClean i.labelname) (map sanitize_index l)
map-sanitize_index-IsClean [] = tt
map-sanitize_index-IsClean (i ∷ l) =
    (sanitize_label_name-IsClean i.labelname, map-sanitize_index-IsClean l)

module _ {F64 : Type 0} where
  map-sanitize_indexes-IsCleanMetric :
      (ms : List (Metric F64))
      → All HasCleanLookups ms
      → All IsCleanMetric (map sanitize_indexes ms)
  unfolding sanitize_indexes
  map-sanitize_indexes-IsCleanMetric [] h = tt
  map-sanitize_indexes-IsCleanMetric (m ∷ ms) (h, hs) =
      ((map-sanitize_index-IsClean m.indexes, h), map-sanitize_indexes-IsCleanMetric ms hs)

bare-HasCleanLookups :
    {F64 : Type 0} (ms : List (Metric F64)) → All HasNoLookups ms → All HasCleanLookups ms
bare-HasCleanLookups = All-map (λ m e. subst (All IsCleanLookup) (sym e) tt)

module _ {F64 : Type 0} (zero : F64) (cfg : ModuleConfig F64) where
  emit_module-metrics :
      (metrics : List (Metric F64)) (oids : List Bytes) {g : Generated F64}
      → emit_module zero cfg metrics oids ≡ ok g
      → metrics ≡ g.metrics
  unfolding emit_module
  emit_module-metrics metrics oids {g} e =
      let (out, r, a) = >>=-eq-ok (split_gets (minimize_oids oids)) _ e in
      ap (λ g. g.metrics) (ok-injective _ g a)

  finish_module-IsCleanMetric :
      (names : NameMap) (s : Store) (tops : Tops) (metrics : List (Metric F64)) {g : Generated F64}
      → finish_module zero cfg names s tops metrics ≡ ok g
      → All HasCleanLookups metrics
      → All IsCleanMetric g.metrics
  unfolding finish_module
  finish_module-IsCleanMetric names s tops metrics {g} e h =
      let to = node_named names s in
      let filters = filter_map to cfg.static_filters [] in
      let required = required_as_index cfg.lookups in
      let (looked, p, q) =
        >>=-eq-ok
          (lookup_metrics names s tops.table_instances filters required cfg.lookups metrics
            tops.need_to_walk)
          _ e in
      let clean =
        lookup_metrics-HasCleanLookups names s tops.table_instances filters required cfg.lookups
          metrics tops.need_to_walk p h in
      subst (All IsCleanMetric) (emit_module-metrics _ _ q) (
        override_metrics-Has IsCleanPair to cfg.overrides _ (
          check_addresses-Has IsCleanPair to tops.table_instances _ looked.1
            (map-sanitize_indexes-IsCleanMetric looked.0 clean)))

  -- The label names of the indexes and the lookups of every metric of a module that comes out are made
  -- of letters, digits and underscores, and so are the labels that a lookup reads.
  pub generate_config_module-IsCleanMetric :
      (tree : Tree) (names : NameMap) (nodes : Store) {g : Generated F64}
      → generate_config_module zero cfg tree names nodes ≡ ok g
      → All IsCleanMetric g.metrics
  unfolding generate_config_module
  generate_config_module-IsCleanMetric tree names nodes {g} e =
      let s = override_types names cfg.overrides nodes in
      let (tops, p, q) =
        >>=-eq-ok (top_nodes (snapshot s tree) (node_named names s) cfg.walk) _ e in
      let (metrics, b, r) =
        >>=-eq-ok
          (metrics_below zero (node_named names s) cfg.overrides (snapshot s tree)
            tops.metric_nodes)
          _ q in
      finish_module-IsCleanMetric names s tops metrics r (
        bare-HasCleanLookups _ (
          metrics_below-HasNoLookups zero (node_named names s) cfg.overrides (snapshot s tree)
            tops.metric_nodes b))
