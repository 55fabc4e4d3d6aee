-- ===== src/Tests/Generate.antt =====
-- The theorems on the tree of the MIBs and the output of the generator at a small MIB.
use snmp_exporter.Common.{ℕ, ◌≡◌, refl, true, false, [], ◌∷◌, if◌then◌else◌, some, All, arith, ◌++◌}
use snmp_exporter.Common.Int.{ℤ, pos}
use snmp_exporter.Common.Text.{Bytes, text, equal, has_prefix, split, join, split_onto}
use snmp_exporter.Common.Decimal.{is_digit}
use snmp_exporter.Common.Map.{lookup, insert}
use snmp_exporter.Common.Utf8.{rune_width, second_byte}
use snmp_exporter.Collector.Index.{int_eq}
use snmp_exporter.Generator.Tree.{
  get_metric_node, is_metric, search_node_tree, metric_type, combined_types, metric_access,
}
use snmp_exporter.Generator.Store.{at, no_trees, tree, node_named, walk_node, write, snapshot}
use snmp_exporter.Generator.Prepare.{
  take_all, prepare_tree, copy_augmented, copy_down, trim_description, name_integers, tweak_type,
  add_names, take_indexes, tweaked_type, type_by_convention, type_by_hint, is_display_string,
  ends_in,
}
use snmp_exporter.Generator.Walks.{
  override_types, resolve, top_nodes, resolve_walks, find_tops, sort_by_oid, insert_by_oid, add_top,
  add_oid, add_node, cut_first,
}
use snmp_exporter.Generator.Indexes.{
  indexes_of, sanitize_label_name, sanitize_from, is_label_char, add_indexes, add_index,
  index_typed, without_subtype, type_with_enum,
}
use snmp_exporter.Generator.Module.{
  generate_config_module, finish_module, emit_module, filter_static, split_gets, before_dot,
}
use snmp_exporter.Generator.Result.{ok}
use snmp_exporter.Generator.Description.{
  first_sentence, fields, fields_onto, space_width, before_period,
}
use snmp_exporter.Generator.Metrics.{
  metrics_below, nodes_from, nodes_of, metrics_of_nodes, metric_of_node, is_ignored,
}
use snmp_exporter.Generator.Minimize.{
  minimize_oids, minimize_from, sort_strings, insert_sorted, leb_text,
}
use snmp_exporter.Generator.Lookups.{
  filter_map, lookup_metrics, apply_lookups, try_lookup, count_found, resolve_lookup,
  get_index_node, sibling_named, parent_oid, with_lookup, lookup_config, lookup_hint, add_column,
  add_instances, filter_metric, required_as_index,
}
use snmp_exporter.Generator.Addresses.{sanitize_indexes, check_addresses, check_address}
use snmp_exporter.Generator.Overrides.{override_metrics}
use snmp_exporter.Common.{List, none}
use snmp_exporter.Common.Map.{Distinct}
use snmp_exporter.Config.WalkParams.{WalkParams}
use snmp_exporter.Generator.Netsnmp.{
  NetsnmpLibrary, MibObject, StructTree, struct_tree, null, peer, Heap, get_mib_tree, copy,
  build_mib_tree, put, mib_node, name_indexes, sort_by_subid, insert_by_subid, less, oid_below,
  set_enums, get_tc_fixed_size, single_value,
}
use snmp_exporter.Generator.Netsnmp.Placed.{Numbered}
use snmp_exporter.Common.{ltb, ◌≢◌}
use snmp_exporter.Generator.Init.{Descriptors, Kernel, tables, init_snmp}
use snmp_exporter.Generator.Init.Restored.{IsNew, init_snmp_restores}
use snmp_exporter.Generator.Netsnmp.Prepared.{get_mib_tree-Numbered}
use snmp_exporter.Generator.Netsnmp.Copied.{Allocated}
use snmp_exporter.Generator.Generate.{
  ModuleInput, ModuleOutput, Environment, written, generate_modules, generate_module, after_module,
  generate_config_file, warning,
}
use snmp_exporter.Generator.Generate.Isolated.{FromCopy, generate_modules-FromCopy}
use snmp_exporter.Generator.Generate.Written.{
  ended, Loads, Makes, in_file, generate_config_file-Ended,
}
use snmp_exporter.Generator.Module.{generate_config, add_module_names}
use snmp_exporter.Tests.Module.{mib_tree, prepared, cfg, octets_module}

-- Two columns of a table in the order in which NetSNMP has them, the last one first.
abbrev object : ℕ → MibObject
object subid = record {
  subid = subid;
  modid = pos 0;
  label = some (text "x");
  typ = pos 2;
  access = pos 18;
  augments = none;
  description = none;
  hint = none;
  tc_index = pos 0;
  units = none;
  enums = [];
  indexes = (some (text "x"), pos 1) ∷ [];
}

abbrev table : StructTree
table =
    struct_tree (object 1)
      (peer (struct_tree (object 10) null) (peer (struct_tree (object 2) null) null))

abbrev netsnmp : NetsnmpLibrary
netsnmp = record {
  find_module = λ modid. some (some (text "IF-MIB"));
  get_tc_descriptor = λ tc. some (text "DisplayString");
  tc_alloc = 1;
  ranges = λ tc. (pos 6, pos 6) ∷ [];
}

abbrev no_nodes : Heap
no_nodes = record { next = 0; store = prepared.1 }

built_run :
    (get_mib_tree netsnmp table no_nodes).0
    ≡ at 0 (tree (at 2 no_trees) (tree (at 1 no_trees) no_trees))
unfolding get_mib_tree build_mib_tree put mib_node sort_by_subid insert_by_subid less write
    name_indexes oid_below set_enums get_tc_fixed_size single_value text equal
built_run = refl

get_mib_tree-Numbered_example :
    Numbered (get_mib_tree netsnmp table no_nodes).1.store (get_mib_tree netsnmp table no_nodes).0
get_mib_tree-Numbered_example = get_mib_tree-Numbered netsnmp table no_nodes

abbrev params : WalkParams ℕ
params = record {
  max_repetitions = 25;
  retries = none;
  timeout = 5;
  use_unconnected_udp_socket = false;
  allow_non_increasing_oids = false;
}

abbrev input : ModuleInput ℤ ℕ
input = record { config = cfg; walk_params = params }

-- A module that makes a gauge of the counter that the other one has.
abbrev as_gauge : ModuleInput ℤ ℕ
as_gauge = record {
  config = record cfg {
    walk = [];
    lookups = [];
    overrides =
        (
          text "ifInOctets",
          record {
            ignore = false;
            regexp_extracts = [];
            date_time_pattern = [];
            offset = pos 0;
            scale = pos 0;
            typ = text "gauge";
            help = [];
            name = [];
            display_hint = [];
          },
        )
        ∷ [];
  };
  walk_params = params;
}

abbrev inputs : List (Bytes × ModuleInput ℤ ℕ)
inputs = (text "gauges", as_gauge) ∷ (text "octets", input) ∷ []

abbrev outputs : List (Bytes × ModuleOutput ℤ ℕ)
outputs =
    (
      text "gauges",
      record {
        generated = record { walk = []; get = []; metrics = []; filters = [] };
        walk_params = params;
      },
    )
    ∷ (text "octets", record { generated = octets_module; walk_params = params })
    ∷ []

abbrev prepared_heap : Heap
prepared_heap = record { next = 5; store = prepared.1 }

mib_tree-Allocated : Allocated prepared_heap mib_tree
mib_tree-Allocated b o = ground arith

inputs-Distinct : Distinct inputs
unfolding Distinct text equal
inputs-Distinct = (refl, (refl, tt))

generate_modules_run : generate_modules (pos 0) mib_tree inputs prepared_heap [] ≡ ok outputs
unfolding generate_modules generate_module after_module generate_config add_module_names copy put
    prepare_tree copy_augmented copy_down trim_description name_integers tweak_type add_names
    take_all take_indexes write walk_node first_sentence fields fields_onto space_width
    before_period tweaked_type type_by_convention type_by_hint is_display_string ends_in is_digit
    int_eq lookup insert text equal has_prefix split split_onto join generate_config_module
    finish_module emit_module override_types top_nodes metrics_below resolve_walks resolve find_tops
    sort_by_oid insert_by_oid add_top add_oid add_node cut_first minimize_oids minimize_from
    sort_strings insert_sorted leb_text get_metric_node is_metric search_node_tree metric_type
    combined_types metric_access snapshot node_named nodes_from nodes_of metrics_of_nodes
    metric_of_node is_ignored sanitize_label_name sanitize_from is_label_char rune_width second_byte
    indexes_of add_indexes add_index index_typed without_subtype type_with_enum filter_map
    lookup_metrics apply_lookups try_lookup count_found resolve_lookup get_index_node sibling_named
    parent_oid with_lookup lookup_config lookup_hint add_column add_instances filter_metric
    required_as_index sanitize_indexes check_addresses check_address override_metrics filter_static
    split_gets before_dot
generate_modules_run = refl

generate_modules-FromCopy_example : All (FromCopy (pos 0) mib_tree prepared_heap outputs) inputs
generate_modules-FromCopy_example =
    generate_modules-FromCopy (pos 0) mib_tree inputs prepared_heap outputs inputs-Distinct
      mib_tree-Allocated generate_modules_run

-- A file system and a library that write every configuration as one text.
abbrev environment : Environment ℕ ℤ ℕ
environment = record {
  abs = λ path. some (b'/' ∷ path);
  read_file = λ path. some path;
  unmarshal_strict = λ content. some (record { auths = []; modules = inputs });
  marshal = λ shown config. if shown then some (text "modules") else none;
  accepts = λ out. true;
  can_create = λ path. true;
  can_write = λ path. true;
}

abbrev file : Bytes
file = warning ++ text "modules"

file_run :
    generate_config_file environment (pos 0) mib_tree prepared_heap (text "in") (text "out") true
    ≡ ended (written (text "/out") file) false
unfolding text
file_run =
    let loaded : Loads environment (pos 0) mib_tree prepared_heap (text "in") (text "out") true
        (text "/out") (record { auths = []; modules = inputs }) =
      record { content = text "in"; is_path = refl; is_read = refl; is_config = refl } in
    let made : Makes environment (pos 0) mib_tree prepared_heap (text "in") (text "out") true
        (text "/out") (text "modules") =
      record {
        cfg = record { auths = []; modules = inputs };
        modules = outputs;
        loads = loaded;
        generated = generate_modules_run;
        marshalled = refl;
      } in
    (generate_config_file-Ended environment (pos 0) mib_tree prepared_heap (text "in") (text "out")
        true (ended (written (text "/out") file) false)).0
      (in_file made refl refl refl)

-- The standard streams, and a pipe behind them.
abbrev streams : Descriptors
streams fd = if ltb fd 3 then some fd else none

abbrev kernel : Kernel
kernel = record {
  pipe_r = 3;
  pipe_w = 4;
  saved = 5;
  read_end = 10;
  write_end = 11;
  setenv_works = true;
  pipe_works = true;
  read_all = some [];
}

kernel-IsNew : IsNew kernel streams
kernel-IsNew = record {
  pipe_r = refl;
  pipe_w = refl;
  pipe_apart = omega arith;
  saved = refl;
  saved_r = omega arith;
  saved_w = omega arith;
  ends_apart = omega arith;
  write_end = λ fd e. ground arith;
}

init_snmp_restores_example :
    ((fd : ℕ) → (init_snmp kernel streams).1 fd ≡ streams fd)
    × ((fd : ℕ) → (tables kernel streams).restored fd ≢ some kernel.write_end)
init_snmp_restores_example = init_snmp_restores kernel streams kernel-IsNew 2 refl
