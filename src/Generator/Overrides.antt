-- ===== src/Generator/Overrides.antt =====
-- The overrides of the metrics of a module in `generateConfigModule` of generator/tree.go.
use snmp_exporter.Common.{◌||◌, List, [], ◌∷◌, map, if◌then◌else◌, Option, some, none}
use snmp_exporter.Common.Text.{Bytes, equal, text}
use snmp_exporter.Collector.Sample.{Metric}
use snmp_exporter.Generator.Tree.{NodeInfo}
use snmp_exporter.Generator.ModuleConfig.{MetricOverrides}

-- A text that is set, or the one before.
abbrev pub or_else : Bytes → Bytes → Bytes
or_else [] old = old
or_else (c ∷ s) old = c ∷ s

-- "@mib" stands for the hint of the node, if it has one.
unfoldable pub override_hint : (Bytes → Option NodeInfo) → Bytes → Bytes → Bytes → Bytes
override_hint name_to_node oid hint old =
    if equal hint (text "@mib")
    then (elim (name_to_node oid) [ some n ↦ or_else n.hint old | none ↦ old ])
    else or_else hint old

module _ {F64 : Type 0} (name_to_node : Bytes → Option NodeInfo) where
  unfoldable pub override_metric : MetricOverrides F64 → Metric F64 → Metric F64
  unfolding override_hint
  override_metric params m = record m {
    regexp_extracts = params.regexp_extracts;
    date_time_pattern = params.date_time_pattern;
    offset = params.offset;
    scale = params.scale;
    help = or_else params.help m.help;
    name = or_else params.name m.name;
    display_hint = override_hint name_to_node m.oid params.display_hint m.display_hint;
  }

  -- A name is that of the metric, as it is by then, or its OID.
  unfoldable pub override_matching : Bytes → MetricOverrides F64 → Metric F64 → Metric F64
  unfolding override_metric
  override_matching name params m =
      if equal name m.name || equal name m.oid then override_metric params m else m

  unfoldable pub override_metrics :
      List (Bytes × MetricOverrides F64) → List (Metric F64) → List (Metric F64)
  unfolding override_matching
  override_metrics [] metrics = metrics
  override_metrics ((name, params) ∷ overrides) metrics =
      override_metrics overrides (map (override_matching name params) metrics)
