-- ===== src/Tests/Module.antt =====
-- The theorems on the preparation of the MIB tree and the generation of modules at a small MIB.
use snmp_exporter.Common.{
  ℕ, ◌≡◌, refl, false, [], ◌∷◌, ◌==◌, if◌then◌else◌, Option, some, All, arith,
}
use snmp_exporter.Common.Int.{ℤ, pos}
use snmp_exporter.Common.Text.{Bytes, text, equal, has_prefix, split, join, split_onto}
use snmp_exporter.Common.Decimal.{is_digit}
use snmp_exporter.Common.Map.{lookup, insert}
use snmp_exporter.Common.Utf8.{rune_width, second_byte}
use snmp_exporter.Collector.Index.{int_eq}
use snmp_exporter.Collector.Sample.{Metric}
use snmp_exporter.Generator.Tree.{
  NodeInfo, get_metric_node, is_metric, search_node_tree, metric_type, combined_types,
  metric_access,
}
use snmp_exporter.Generator.Store.{
  Tree, at, no_trees, tree, Store, NameMap, node_named, walk_node, write, snapshot,
}
use snmp_exporter.Generator.Prepare.{
  take_all, prepare_tree, copy_augmented, copy_down, trim_description, name_integers, tweak_type,
  add_names, take_indexes, tweaked_type, type_by_convention, type_by_hint, is_display_string,
  ends_in,
}
use snmp_exporter.Generator.Prepare.Inherit.{Inherits, prepare_tree-Inherits}
use snmp_exporter.Generator.ModuleConfig.{ModuleConfig, SourceLookup, is_type_override}
use snmp_exporter.Generator.Walks.{
  override_types, resolve, top_nodes, resolve_walks, find_tops, sort_by_oid, insert_by_oid, add_top,
  add_oid, add_node, cut_first,
}
use snmp_exporter.Generator.Indexes.{
  indexes_of, sanitize_label_name, sanitize_from, is_label_char, add_indexes, add_index,
  index_typed, without_subtype, type_with_enum,
}
use snmp_exporter.Generator.Indexes.Panics.{indexes_of-panics}
use snmp_exporter.Generator.Module.{
  Generated, generate_config_module, finish_module, emit_module, filter_static, split_gets,
  before_dot,
}
use snmp_exporter.Generator.Module.CleanLookups.{IsCleanMetric}
use snmp_exporter.Generator.Module.Labels.{generate_config_module-IsCleanMetric}
use snmp_exporter.Generator.Result.{ok, panic}
use snmp_exporter.Generator.Description.{
  first_sentence, fields, fields_onto, space_width, before_period,
}
use snmp_exporter.Generator.Metrics.{
  metrics_below, nodes_from, nodes_of, metrics_of_nodes, metric_of_node, is_ignored,
}
use snmp_exporter.Generator.Minimize.{
  minimize_oids, minimize_from, sort_strings, insert_sorted, leb_text,
}
use snmp_exporter.Generator.Lookups.{
  filter_map, lookup_metrics, apply_lookups, try_lookup, count_found, resolve_lookup,
  get_index_node, sibling_named, parent_oid, with_lookup, lookup_config, lookup_hint, add_column,
  add_instances, filter_metric, required_as_index,
}
use snmp_exporter.Generator.Addresses.{sanitize_indexes, check_addresses, check_address}
use snmp_exporter.Generator.Overrides.{override_metrics}
use snmp_exporter.Generator.Store.Frame.{Apart}
use snmp_exporter.Tests.Generator.{bare}

abbrev pub named : ℕ → Bytes → Bytes → NodeInfo
named a oid label = record (bare oid) {
  address = a;
  label = label;
  access = text "ACCESS_READONLY";
}

abbrev pub mib : Store
mib a =
    if a == 0
    then named 0 (text "1.3") (text "iso")
    else if a == 1
    then record (named 1 (text "1.3.1") (text "ifEntry")) { indexes = text "ifIndex" ∷ [] }
    else if a == 2
    then record (named 2 (text "1.3.1.1") (text "ifIndex")) { typ = text "INTEGER" }
    else if a == 3
    then record (named 3 (text "1.3.1.2") (text "if-Descr")) {
      typ = text "OCTETSTR";
      textual_convention = text "DisplayString";
    }
    else record (named 4 (text "1.3.1.10") (text "ifInOctets")) { typ = text "COUNTER" }

abbrev pub mib_tree : Tree
mib_tree = at 0 (
    tree (at 1 (tree (at 2 no_trees) (tree (at 3 no_trees) (tree (at 4 no_trees) no_trees))))
      no_trees)

abbrev pub prepared : NameMap × Store
prepared = prepare_tree mib_tree mib

mib_tree-Apart : Apart mib_tree
mib_tree-Apart = (
  refl,
  (
    (
      refl,
      (
        (refl, tt),
        (((refl, tt), (((refl, tt), (tt, λ b o. refl)), λ b o. ground arith)), λ b o. ground arith),
      ),
    ),
    (tt, λ b o. refl),
  ),
)

prepare_tree-Inherits_example : Inherits (prepare_tree mib_tree mib).1 mib_tree
prepare_tree-Inherits_example = prepare_tree-Inherits mib_tree mib mib_tree-Apart

abbrev pub by_descr : SourceLookup
by_descr = record {
  source_indexes = text "ifIndex" ∷ [];
  lookup = text "if-Descr";
  drop_source_indexes = false;
  display_hint = [];
}

abbrev pub cfg : ModuleConfig ℤ
cfg = record {
  walk = text "ifInOctets" ∷ [];
  lookups = by_descr ∷ [];
  overrides = [];
  static_filters = [];
  dynamic_filters = [];
}

abbrev pub in_octets : Metric ℤ
in_octets = record {
  name = text "ifInOctets";
  oid = text "1.3.1.10";
  type_ = text "counter";
  help = text " - 1.3.1.10";
  indexes =
      record {
        labelname = text "ifIndex";
        type_ = text "gauge";
        fixed_size = pos 0;
        implied = false;
        enum_values = [];
      }
      ∷ [];
  lookups =
      record {
        labels = text "ifIndex" ∷ [];
        labelname = text "if_Descr";
        oid = text "1.3.1.2";
        type_ = text "DisplayString";
        display_hint = [];
        enum_values = [];
      }
      ∷ [];
  regexp_extracts = [];
  date_time_pattern = [];
  enum_values = [];
  offset = pos 0;
  scale = pos 0;
  display_hint = [];
}

abbrev pub octets_module : Generated ℤ
octets_module = record {
  walk = text "1.3.1.10" ∷ text "1.3.1.2" ∷ [];
  get = [];
  metrics = in_octets ∷ [];
  filters = [];
}

generated : generate_config_module (pos 0) cfg mib_tree prepared.0 prepared.1 ≡ ok octets_module
unfolding prepare_tree copy_augmented copy_down trim_description name_integers tweak_type add_names
    take_all take_indexes write walk_node first_sentence fields fields_onto space_width
    before_period tweaked_type type_by_convention type_by_hint is_display_string ends_in is_digit
    int_eq lookup insert text equal has_prefix split split_onto join generate_config_module
    finish_module emit_module override_types top_nodes metrics_below resolve_walks resolve find_tops
    sort_by_oid insert_by_oid add_top add_oid add_node cut_first minimize_oids minimize_from
    sort_strings insert_sorted leb_text get_metric_node is_metric search_node_tree metric_type
    combined_types metric_access snapshot node_named nodes_from nodes_of metrics_of_nodes
    metric_of_node is_ignored sanitize_label_name sanitize_from is_label_char rune_width second_byte
    indexes_of add_indexes add_index index_typed without_subtype type_with_enum filter_map
    lookup_metrics apply_lookups try_lookup count_found resolve_lookup get_index_node sibling_named
    parent_oid with_lookup lookup_config lookup_hint add_column add_instances filter_metric
    required_as_index sanitize_indexes check_addresses check_address override_metrics filter_static
    split_gets before_dot
generated = refl

generate_config_module-IsCleanMetric_example : All IsCleanMetric (in_octets ∷ [])
generate_config_module-IsCleanMetric_example =
    generate_config_module-IsCleanMetric (pos 0) cfg mib_tree prepared.0 prepared.1 generated

-- The index of pimSGTable in PIM-STD-MIB.
abbrev sg_names : Bytes → Option NodeInfo
sg_names name =
    if equal name (text "pimSGAddressType")
    then some (record (named 1 [] name) {
      typ = text "INTEGER";
      textual_convention = text "InetAddressType";
    })
    else some (record (named 2 [] name) {
      typ = text "InetAddress";
      textual_convention = text "InetAddress";
    })

abbrev sg_uptime : NodeInfo
sg_uptime = record (named 3 [] (text "pimSGUpTime")) {
  indexes = text "pimSGAddressType" ∷ text "pimSGGrpAddress" ∷ text "pimSGSrcAddress" ∷ [];
}

indexes_of-panics_example : indexes_of sg_names sg_uptime ≡ panic
unfolding text equal
indexes_of-panics_example =
    indexes_of-panics sg_names sg_uptime (text "pimSGAddressType") (text "pimSGGrpAddress")
      (text "pimSGSrcAddress") []
      (record (named 1 [] (text "pimSGAddressType")) {
        typ = text "INTEGER";
        textual_convention = text "InetAddressType";
      })
      (record (named 2 [] (text "pimSGGrpAddress")) {
        typ = text "InetAddress";
        textual_convention = text "InetAddress";
      })
      (record (named 2 [] (text "pimSGSrcAddress")) {
        typ = text "InetAddress";
        textual_convention = text "InetAddress";
      })
      refl refl refl refl (record { by_type = refl; by_convention = refl })
      (record { by_type = refl; by_convention = refl; no_enum = refl })
      (record { by_type = refl; by_convention = refl; no_enum = refl })

-- "Bits" cannot be chosen as the type of a metric.
bits_refused : is_type_override (text "Bits") ≡ false
unfolding is_type_override metric_type combined_types text equal
bits_refused = refl
