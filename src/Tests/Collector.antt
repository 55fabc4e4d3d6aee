-- ===== src/Tests/Collector.antt =====
-- The theorems on object identifiers, indexes and the tree of metrics at inputs.
use snmp_exporter.Common.{◌≡◌, refl, Bool, false, List, [], ◌∷◌, none, some, Option, arith, length}
use snmp_exporter.Common.Text.{Bytes, text, equal, join}
use snmp_exporter.Common.Int.{ℤ, pos}
use snmp_exporter.Common.Decimal.{itoa, format_uint, digit_char}
use snmp_exporter.Collector.DisplayHint.{write_hex}
use snmp_exporter.Collector.Oid.{Oid, oid_to_list, list_to_oid, split_oid}
use snmp_exporter.Collector.Oid.RoundTrip.{oid_to_list-list_to_oid}
use snmp_exporter.Collector.Index.{
  Index, EnumMap, int_eq, enum_value, inet_address_types, lldp_port_id_types, combined_type_mapping,
  first, second, byte, add_two, format_02x, hex_pairs, string_length, index_content, index_string,
  hex_string, index_fixed, enum_or_number, index_switch, index_combined, index_body,
  index_oids_as_string,
}
use snmp_exporter.Collector.Index.Cut.{index_oids_as_string-Cuts}
use snmp_exporter.Collector.MetricTree.{find, build_metric_tree}
use snmp_exporter.Collector.MetricTree.Laws.{last_with, shortest, find-build_metric_tree}

oid_to_list-list_to_oid_example :
    oid_to_list (list_to_oid (pos 1 ∷ pos 36 ∷ [])) ≡ pos 1 ∷ pos 36 ∷ []
oid_to_list-list_to_oid_example = oid_to_list-list_to_oid (pos 1) (pos 36 ∷ []) (omega arith)

-- An InetAddress of subtype 1 and length 4, and one oid that remains.
abbrev inet_oids : Oid
inet_oids = pos 1 ∷ pos 4 ∷ pos 192 ∷ pos 168 ∷ pos 1 ∷ pos 2 ∷ pos 9 ∷ []

abbrev inet_index : Index
inet_index = record {
  str = text "192.168.1.2";
  used = pos 1 ∷ pos 4 ∷ pos 192 ∷ pos 168 ∷ pos 1 ∷ pos 2 ∷ [];
  remaining = pos 9 ∷ [];
}

unfoldable pub run_index : Oid → Bytes → ℤ → Bool → EnumMap → Option Index
unfolding index_oids_as_string index_body index_combined index_switch enum_or_number index_fixed
    hex_string index_string index_content string_length hex_pairs format_02x add_two byte second
    first combined_type_mapping lldp_port_id_types inet_address_types enum_value int_eq split_oid
    write_hex itoa format_uint join equal text digit_char
run_index oids typ size implied enums = index_oids_as_string oids typ size implied enums

inet_run : index_oids_as_string inet_oids (text "InetAddress") (pos 0) false [] ≡ some inet_index
unfolding run_index
inet_run = refl

mac_run :
    run_index
      (pos 4 ∷ pos 5 ∷ pos 6 ∷ pos 7 ∷ pos 8 ∷ pos 255 ∷ [])
      (text "PhysAddress48")
      (pos 0)
      false
      []
    ≡ some (record {
      str = text "04:05:06:07:08:FF";
      used = pos 4 ∷ pos 5 ∷ pos 6 ∷ pos 7 ∷ pos 8 ∷ pos 255 ∷ [];
      remaining = [];
    })
unfolding run_index
mac_run = refl

-- Missing trailing zeros are filled in.
short_string_run :
    run_index (pos 3 ∷ pos 65 ∷ []) (text "OctetString") (pos 0) false []
    ≡ some (record {
      str = text "0x410000";
      used = pos 3 ∷ pos 65 ∷ pos 0 ∷ pos 0 ∷ [];
      remaining = [];
    })
unfolding run_index
short_string_run = refl

unknown_type_run : run_index (pos 1 ∷ []) (text "DateAndTime") (pos 0) false [] ≡ none
unfolding run_index
unknown_type_run = refl

index_oids_as_string-Cuts_example :
    split_oid inet_oids (length inet_index.used) ≡ (inet_index.used, inet_index.remaining)
index_oids_as_string-Cuts_example =
    index_oids_as_string-Cuts inet_oids (text "InetAddress") (pos 0) false [] inet_run

abbrev oids : List Bytes
oids = text "1.3.1" ∷ text "1.3.2.1" ∷ text "1.3.2" ∷ []

find-build_metric_tree_example :
    find (pos 1 ∷ pos 3 ∷ pos 2 ∷ pos 1 ∷ []) (build_metric_tree (λ oid. oid) oids)
    ≡ shortest (λ p. last_with (λ oid. oid) oids p none) (pos 1 ∷ pos 3 ∷ pos 2 ∷ pos 1 ∷ [])
find-build_metric_tree_example =
    find-build_metric_tree (λ oid. oid) oids (pos 1 ∷ pos 3 ∷ pos 2 ∷ pos 1 ∷ [])
