-- ===== src/Collector/Labels.antt =====
-- The labels of a row: `indexesToLabels` of collector/collector.go, over `Index`, `Lookup` and
-- `Metric` of config/config.go. `none` is a panic.
pub mod Distinct
pub mod Row
use snmp_exporter.Common.{
  ℕ, ◌≡◌, refl, Bool, true, false, List, [], ◌∷◌, ◌++◌, ◌&&◌, if◌then◌else◌, Option, some, none,
  ◌>>=◌,
}
use snmp_exporter.Common.Int.{ℤ}
use snmp_exporter.Common.Text.{Bytes, text, equal}
use snmp_exporter.Common.Utf8.{to_valid_utf8}
use snmp_exporter.Common.Decimal.{itoa}
use snmp_exporter.Common.Map.{lookup, insert, delete}
use snmp_exporter.Collector.Oid.{Oid, list_to_oid, get_prev_oid}
use snmp_exporter.Collector.Index.{
  EnumMap, enum_value, combined_type_mapping, Index, index_oids_as_string,
}
use snmp_exporter.Collector.Pdu.{Pdu, Host, pdu_value_as_string}
use snmp_exporter.Collector.Number.{int64_of, get_pdu_value}

-- `config.Index`.
pub record IndexConfig : Type 0 where
  pub labelname : Bytes
  pub type_ : Bytes
  pub fixed_size : ℤ
  pub implied : Bool
  pub enum_values : EnumMap

-- `config.Lookup`.
pub record Lookup : Type 0 where
  pub labels : List Bytes
  pub labelname : Bytes
  pub oid : Bytes
  pub type_ : Bytes
  pub display_hint : Bytes
  pub enum_values : EnumMap

-- The maps `labels` and `labelOids`.
pub record Labels : Type 0 where
  pub labels : List (Bytes × Bytes)
  pub label_oids : List (Bytes × Oid)

unfoldable pub read_indexes : Oid → List IndexConfig → Labels → Option Labels
read_indexes oids [] l = some l
read_indexes oids (index ∷ indexes) l = do
  i ← index_oids_as_string oids index.type_ index.fixed_size index.implied index.enum_values
  read_indexes i.remaining indexes (record {
    labels = insert index.labelname (to_valid_utf8 i.str) l.labels;
    label_oids = insert index.labelname i.used l.label_oids;
  })

-- `labelOids[label]`, which is nil for a missing key.
unfoldable pub label_oid : List (Bytes × Oid) → Bytes → Oid
label_oid m label = elim (lookup label m) [ some oids ↦ oids | none ↦ [] ]

-- The oid of a lookup: the oids of its labels appended one after another.
unfoldable pub lookup_oid : List (Bytes × Oid) → Bytes → List Bytes → Bytes
lookup_oid m oid [] = oid
lookup_oid m oid (label ∷ labels) =
    lookup_oid m (oid ++ (b'.' ∷ list_to_oid (label_oid m label))) labels

unfoldable pub has_enums : EnumMap → Bool
has_enums [] = false
has_enums (e ∷ enums) = true

unfoldable pub enum_text : EnumMap → ℤ → Bytes
enum_text enums z = elim (enum_value enums z) [ some str ↦ str | none ↦ itoa z ]

module _ {F32 F64 : Type 0} (host : Host F32 F64) (wrap_counters : Bool) where
  abbrev pub OidToPdu : Type 0
  OidToPdu = List (Bytes × Pdu F32 F64)

  -- The number in the variable at an oid, where there is one.
  unfoldable pub prev_value : OidToPdu → Bytes → Option (Option ℤ)
  prev_value oid_to_pdu oid = elim (lookup oid oid_to_pdu) [
    | none ↦ some none
    | some pdu ↦ do v ← get_pdu_value host wrap_counters pdu; some (some (host.f64_to_int v))
  ]

  -- The type to show the value of a lookup by: the sub type of a combined type, where it is found.
  unfoldable pub lookup_type : OidToPdu → List (Bytes × Oid) → Lookup → Option Bytes
  lookup_type oid_to_pdu m l = elim (combined_type_mapping l.type_) [
    | none ↦ some l.type_
    | some mapping ↦ do
      val ← prev_value oid_to_pdu (lookup_oid m (get_prev_oid l.oid) l.labels)
      some (elim val [
        | none ↦ l.type_
        | some z ↦ elim (enum_value mapping z) [ some ty ↦ ty | none ↦ l.type_ ]
      ])
  ]

  unfoldable pub lookup_text : Bytes → Lookup → Pdu F32 F64 → Option Bytes
  lookup_text t l pdu =
      if equal t (text "EnumAsInfo") && has_enums l.enum_values
      then some (enum_text l.enum_values (int64_of (host.to_big_int pdu.value)))
      else pdu_value_as_string host pdu t l.display_hint

  -- One turn of the loop over the lookups.
  unfoldable pub found_lookup : OidToPdu → Lookup → Labels → Pdu F32 F64 → Option Labels
  found_lookup oid_to_pdu l s pdu = do
    t ← lookup_type oid_to_pdu s.label_oids l
    str ← lookup_text t l pdu
    some (record {
      labels = insert l.labelname str s.labels;
      label_oids = insert l.labelname (int64_of (host.to_big_int pdu.value) ∷ []) s.label_oids;
    })

  unfoldable pub look_at : OidToPdu → Lookup → Labels → Option (Pdu F32 F64) → Option Labels
  look_at oid_to_pdu l s none = some (record s { labels = insert l.labelname [] s.labels })
  look_at oid_to_pdu l s (some pdu) = found_lookup oid_to_pdu l s pdu

  unfoldable pub look_up : OidToPdu → Lookup → Labels → List Bytes → Option Labels
  look_up oid_to_pdu l s [] = some (record s { labels = delete l.labelname s.labels })
  look_up oid_to_pdu l s (label ∷ labels) =
      look_at oid_to_pdu l s (lookup (lookup_oid s.label_oids l.oid (label ∷ labels)) oid_to_pdu)

  unfoldable pub do_lookups : OidToPdu → List Lookup → Labels → Option Labels
  do_lookups oid_to_pdu [] s = some s
  do_lookups oid_to_pdu (l ∷ ls) s = do
    s' ← look_up oid_to_pdu l s l.labels
    do_lookups oid_to_pdu ls s'

  -- `indexesToLabels`.
  unfoldable pub indexes_to_labels :
      Oid → List IndexConfig → List Lookup → OidToPdu → Option (List (Bytes × Bytes))
  indexes_to_labels oids indexes lookups oid_to_pdu = do
    s ← read_indexes oids indexes (record { labels = []; label_oids = [] })
    s' ← do_lookups oid_to_pdu lookups s
    some s'.labels
