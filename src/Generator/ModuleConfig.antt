-- ===== src/Generator/ModuleConfig.antt =====
-- The configuration of the generator in generator/config.go, with the checks of its `UnmarshalYAML`,
-- of which the argument is what the decoder gives (`none` for its error).
use snmp_exporter.Common.{
  Bool, false, ◌||◌, List, [], all, if◌then◌else◌, Option, some, none, ◌>>=◌,
}
use snmp_exporter.Common.Text.{Bytes, equal}
use snmp_exporter.Common.Decimal.{is_int}
use snmp_exporter.Collector.Scrape.{DynamicFilter}
use snmp_exporter.Collector.Sample.{RegexpExtract}
use snmp_exporter.Generator.Tree.{metric_type}

pub record MetricOverrides (F64 : Type 0) : Type 0 where
  pub ignore : Bool
  pub regexp_extracts : List (Bytes × List RegexpExtract)
  pub date_time_pattern : Bytes
  pub offset : F64
  pub scale : F64
  pub typ : Bytes
  pub help : Bytes
  pub name : Bytes
  pub display_hint : Bytes

pub record SourceLookup : Type 0 where
  pub source_indexes : List Bytes
  pub lookup : Bytes
  pub drop_source_indexes : Bool
  pub display_hint : Bytes

-- `config.StaticFilter`.
pub record StaticFilter : Type 0 where
  pub targets : List Bytes
  pub indices : List Bytes

-- `WalkParams` is left out.
pub record ModuleConfig (F64 : Type 0) : Type 0 where
  pub walk : List Bytes
  pub lookups : List SourceLookup
  pub overrides : List (Bytes × MetricOverrides F64)
  pub static_filters : List StaticFilter
  pub dynamic_filters : List DynamicFilter

-- The type of an override is empty or one that `metricType` gives back.
unfoldable pub is_type_override : Bytes → Bool
is_type_override t = equal t [] || (elim (metric_type t) [ some u ↦ equal u t | none ↦ false ])

module _ {F64 : Type 0} where
  unfoldable pub check_overrides : Option (MetricOverrides F64) → Option (MetricOverrides F64)
  unfolding is_type_override
  check_overrides decoded = do c ← decoded; if is_type_override c.typ then some c else none

  unfoldable pub check_module : Option (ModuleConfig F64) → Option (ModuleConfig F64)
  check_module decoded = do
    c ← decoded
    if all (λ filter. all is_int filter.indices) c.static_filters then some c else none
