-- ===== src/Generator/Module/Alike.antt =====
-- What the last steps of `generateConfigModule` in generator/tree.go keep of the indexes and the
-- lookups of a metric.
use snmp_exporter.Common.{◌≡◌, List, [], ◌∷◌, map, arith, Option, All}
use mathlib.Core.Path.{subst}
use snmp_exporter.Common.Text.{Bytes}
use snmp_exporter.Collector.Labels.{IndexConfig, Lookup}
use snmp_exporter.Collector.Sample.{Metric}
use snmp_exporter.Generator.Tree.{NodeInfo}
use snmp_exporter.Generator.ModuleConfig.{MetricOverrides}
use snmp_exporter.Generator.Addresses.{check_address, check_addresses}
use snmp_exporter.Generator.Overrides.{override_metric, override_matching, override_metrics}

module _ {F64 : Type 0} (P : List IndexConfig → List Lookup → Type 0) where
  abbrev pub Has : Metric F64 → Type 0
  Has m = P m.indexes m.lookups

  -- The indexes and the lookups stay the same.
  Alike : Metric F64 → Metric F64 → Type 0
  Alike m n = (m.indexes ≡ n.indexes) × (m.lookups ≡ n.lookups)

  Alike-Has : (m n : Metric F64) → Alike m n → Has m → Has n
  unfolding Alike
  Alike-Has m n (p, q) h = subst (λ l. P l n.lookups) p (subst (P m.indexes) q h)

  check_address-Alike :
      (name_to_node : Bytes → Option NodeInfo) (table_instances : List (Bytes × List Bytes))
      (m : Metric F64) (oids : List Bytes)
      → Alike m (check_address name_to_node table_instances m oids).0
  unfolding check_address Alike
  check_address-Alike name_to_node table_instances m oids = ground arith

  pub check_addresses-Has :
      (name_to_node : Bytes → Option NodeInfo) (table_instances : List (Bytes × List Bytes))
      (ms : List (Metric F64)) (oids : List Bytes)
      → All Has ms
      → All Has (check_addresses name_to_node table_instances ms oids).0
  unfolding check_addresses
  check_addresses-Has name_to_node table_instances [] oids h = tt
  check_addresses-Has name_to_node table_instances (m ∷ ms) oids (h, hs) = (
    Alike-Has m _ (check_address-Alike name_to_node table_instances m oids) h,
    check_addresses-Has name_to_node table_instances ms _ hs,
  )

  override_matching-Alike :
      (name_to_node : Bytes → Option NodeInfo) (name : Bytes) (params : MetricOverrides F64)
      (m : Metric F64)
      → Alike m (override_matching name_to_node name params m)
  unfolding override_matching override_metric Alike
  override_matching-Alike name_to_node name params m = ground arith

  map-override_matching-Has :
      (name_to_node : Bytes → Option NodeInfo) (name : Bytes) (params : MetricOverrides F64)
      (ms : List (Metric F64))
      → All Has ms
      → All Has (map (override_matching name_to_node name params) ms)
  map-override_matching-Has name_to_node name params [] h = tt
  map-override_matching-Has name_to_node name params (m ∷ ms) (h, hs) = (
    Alike-Has m _ (override_matching-Alike name_to_node name params m) h,
    map-override_matching-Has name_to_node name params ms hs,
  )

  pub override_metrics-Has :
      (name_to_node : Bytes → Option NodeInfo) (overrides : List (Bytes × MetricOverrides F64))
      (ms : List (Metric F64))
      → All Has ms
      → All Has (override_metrics name_to_node overrides ms)
  unfolding override_metrics
  override_metrics-Has name_to_node [] ms h = h
  override_metrics-Has name_to_node ((name, params) ∷ overrides) ms h =
      override_metrics-Has name_to_node overrides _
        (map-override_matching-Has name_to_node name params ms h)
