-- ===== src/Collector/Index/Fixpoint.antt =====
-- The recursion of `indexOidsAsString` ends after one call.
use snmp_exporter.Common.{
  ◌≡◌, refl, sym, ◌∙◌, Bool, true, false, arith, if◌then◌else◌, some, none, Option-cases, inl, inr,
  ◌⊎◌,
}
use snmp_exporter.Common.Int.{ℤ, pos}
use snmp_exporter.Common.Text.{Bytes, text, equal}
use snmp_exporter.Collector.Oid.{Oid, split_oid}
use snmp_exporter.Collector.Index.{
  EnumMap, IndexFunction, enum_value, inet_address_types, lldp_port_id_types, combined_type_mapping,
  index_switch, index_combined, index_body, add_two, second, index_oids_as_string, first,
}

simple_types :
    (combined_type_mapping (text "InetAddressIPv4") ≡ none)
    × (combined_type_mapping (text "InetAddressIPv6") ≡ none)
    × (combined_type_mapping (text "DisplayString") ≡ none)
    × (combined_type_mapping (text "PhysAddress48") ≡ none)
    × (combined_type_mapping (text "OctetString") ≡ none)
unfolding combined_type_mapping equal text
simple_types = (refl, refl, refl, refl, refl)

inet_simple :
    (k : ℤ) {t : Bytes} → enum_value inet_address_types k ≡ some t → combined_type_mapping t ≡ none
unfolding enum_value inet_address_types
inet_simple k f = ground (arith, simple_types)

lldp_simple :
    (k : ℤ) {t : Bytes} → enum_value lldp_port_id_types k ≡ some t → combined_type_mapping t ≡ none
unfolding enum_value lldp_port_id_types
lldp_simple k f = ground (arith, simple_types)

mappings :
    (typ : Bytes) {m : EnumMap}
    → combined_type_mapping typ ≡ some m
    → (m ≡ inet_address_types) ⊎ (m ≡ lldp_port_id_types)
unfolding combined_type_mapping
mappings typ e = ground arith

-- The types that a combined type stands for are not combined.
mapped_type :
    (typ : Bytes) (k : ℤ) {m : EnumMap} {t : Bytes}
    → combined_type_mapping typ ≡ some m
    → enum_value m k ≡ some t
    → combined_type_mapping t ≡ none
mapped_type typ k e f = elim (mappings typ e) [
  | inl inet ↦ inet_simple k (rw inet at f)
  | inr lldp ↦ lldp_simple k (rw lldp at f)
]

pub index_body-simple :
    (rec : IndexFunction) (oids : Oid) (t : Bytes) (size : ℤ) (implied : Bool) (enums : EnumMap)
    → combined_type_mapping t ≡ none
    → index_body rec oids t size implied enums ≡ index_switch oids t size implied enums
unfolding index_body
index_body-simple rec oids t size implied enums h = rw (h, index_body) refl

pub index_body-combined :
    (rec : IndexFunction) (oids : Oid) (t : Bytes) (size : ℤ) (implied : Bool) (enums : EnumMap)
    {m : EnumMap}
    → combined_type_mapping t ≡ some m
    → index_body rec oids t size implied enums ≡ index_combined rec m oids t enums
unfolding index_body
index_body-combined rec oids t size implied enums h = rw (h, index_body) refl

simple_index :
    (oids : Oid) (t : Bytes) (size : ℤ) (implied : Bool) (enums : EnumMap)
    → combined_type_mapping t ≡ none
    → index_switch oids t size implied enums ≡ index_oids_as_string oids t size implied enums
unfolding index_oids_as_string
simple_index oids t size implied enums h =
    sym (index_body-simple index_switch oids t size implied enums h)

combined_index :
    (oids : Oid) (typ : Bytes) (mapping : EnumMap) (enums : EnumMap)
    → combined_type_mapping typ ≡ some mapping
    → index_combined index_switch mapping oids typ enums
      ≡ index_combined index_oids_as_string mapping oids typ enums
unfolding index_combined
combined_index oids typ mapping enums h =
    let octets = simple_types.4 in
    let missing = equal typ (text "InetAddressMissingSize") in
    let cut = split_oid oids (if missing then 1 else 2) in
    elim (Option-cases (enum_value mapping (first cut.0))) [
      | inr (t, e) ↦
          let same = simple_index cut.1 t (pos 0) false enums (mapped_type typ _ h e) in
          rw (e, same, index_combined) refl
      | inl unknown ↦
          let rest = simple_index oids (text "OctetString") (pos 0) true enums octets in
          let sized =
            simple_index oids (text "OctetString") (add_two (second cut.0)) false enums octets in
          rw (unknown, rest, sized, index_combined) refl
    ]

-- `indexOidsAsString` satisfies its own recursive equation: the calls that it makes are at types
-- that it handles without a further call.
pub index_oids_as_string_lem :
    (oids : Oid) (typ : Bytes) (size : ℤ) (implied : Bool) (enums : EnumMap)
    → index_oids_as_string oids typ size implied enums
      ≡ index_body index_oids_as_string oids typ size implied enums
index_oids_as_string_lem oids typ size implied enums =
    elim (Option-cases (combined_type_mapping typ)) [
      | inl simple ↦
          sym (simple_index oids typ size implied enums simple)
          ∙ sym (index_body-simple index_oids_as_string oids typ size implied enums simple)
      | inr (m, e) ↦
          unfold index_oids_as_string in
          index_body-combined index_switch oids typ size implied enums e
          ∙ combined_index oids typ m enums e
          ∙ sym (index_body-combined index_oids_as_string oids typ size implied enums e)
    ]
