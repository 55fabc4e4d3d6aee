-- ===== src/Generator/Addresses.antt =====
-- Two passes of `generateConfigModule` in generator/tree.go over the metrics of a module: the label
-- names of indexes are sanitized, and an InetAddress has its type walked too.
use snmp_exporter.Common.{
  Bool, false, not, ◌||◌, List, [], ◌∷◌, map, if◌then◌else◌, Option, some, none,
}
use snmp_exporter.Common.Text.{Bytes, equal, text}
use snmp_exporter.Collector.Oid.{get_prev_oid}
use snmp_exporter.Collector.Labels.{IndexConfig}
use snmp_exporter.Collector.Sample.{Metric}
use snmp_exporter.Generator.Tree.{NodeInfo}
use snmp_exporter.Generator.Walks.{instances}
use snmp_exporter.Generator.Indexes.{sanitize_label_name}
use snmp_exporter.Generator.Lookups.{add_column}

abbrev pub sanitize_index : IndexConfig → IndexConfig
sanitize_index i = record i { labelname = sanitize_label_name i.labelname }

abbrev pub is_inet_address : Bytes → Bool
is_inet_address t = equal t (text "InetAddress") || equal t (text "InetAddressMissingSize")

-- The object before the metric is an InetAddressType. The code computes the OID before in place, as
-- getPrevOid of collector/collector.go does.
unfoldable pub follows_type : (Bytes → Option NodeInfo) → Bytes → Bool
follows_type name_to_node oid = elim (name_to_node (get_prev_oid oid)) [
  | some n ↦ equal n.textual_convention (text "InetAddressType")
  | none ↦ false
]

module _ {F64 : Type 0} where
  unfoldable pub sanitize_indexes : Metric F64 → Metric F64
  sanitize_indexes m = record m { indexes = map sanitize_index m.indexes }

  -- The round for one metric.
  unfoldable pub check_address :
      (Bytes → Option NodeInfo)
      → List (Bytes × List Bytes)
      → Metric F64
      → List Bytes
      → Metric F64 × List Bytes
  unfolding follows_type
  check_address name_to_node table_instances m oids =
      if not (is_inet_address m.type_)
      then (m, oids)
      else if not (follows_type name_to_node m.oid)
      then (record m { type_ = text "OctetString" }, oids)
      else (m, add_column (get_prev_oid m.oid) (instances m.oid table_instances) oids)

  unfoldable pub check_addresses :
      (Bytes → Option NodeInfo)
      → List (Bytes × List Bytes)
      → List (Metric F64)
      → List Bytes
      → List (Metric F64) × List Bytes
  unfolding check_address
  check_addresses name_to_node table_instances [] oids = ([], oids)
  check_addresses name_to_node table_instances (m ∷ metrics) oids =
      let checked = check_address name_to_node table_instances m oids in
      let rest = check_addresses name_to_node table_instances metrics checked.1 in
      (checked.0 ∷ rest.0, rest.1)
