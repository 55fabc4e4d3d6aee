-- ===== src/Collector/Pdu.antt =====
-- SNMP variables as `gosnmp` delivers them, their values as text (`pduValueAsString` of
-- collector/collector.go), and what the code takes from libraries.
pub mod Panics
use snmp_exporter.Common.{
  ℕ, Bool, true, false, not, ◌&&◌, ◌||◌, List, [], ◌∷◌, map, if◌then◌else◌, Option, some, none,
  length, ◌>>=◌,
}
use snmp_exporter.Common.Int.{ℤ, pos}
use snmp_exporter.Common.Text.{Bytes, text, equal}
use snmp_exporter.Common.Utf8.{to_valid_utf8}
use snmp_exporter.Common.Decimal.{itoa, format_uint}
use snmp_exporter.Collector.DisplayHint.{apply_display_hint, done, failed, out_of_fuel}
use snmp_exporter.Collector.Index.{index_oids_as_string}

-- The types of a variable that the code tells apart.
pub data Asn1Ber : Type 0 where
  object_identifier counter64 opaque_float opaque_double : Asn1Ber
  no_such_object no_such_instance end_of_mib_view other_type : Asn1Ber

-- The dynamic type and value of `pdu.Value`. The floats are those of the host; of a value of a
-- further type the code uses only its text under "%s".
pub data Value (F32 F64 : Type 0) : Type 0 where
  int : ℤ → Value F32 F64
  uint : ℕ → Value F32 F64
  uint32 : ℕ → Value F32 F64
  uint64 : ℕ → Value F32 F64
  float32 : F32 → Value F32 F64
  float64 : F64 → Value F32 F64
  string : Bytes → Value F32 F64
  bytes : Bytes → Value F32 F64
  nothing : Value F32 F64
  other : Bytes → Value F32 F64

pub record Pdu (F32 F64 : Type 0) : Type 0 where
  pub name : Bytes
  pub typ : Asn1Ber
  pub value : Value F32 F64

-- What the code calls of libraries that are not its own, or that its environment decides:
-- `strconv.FormatFloat` at the shortest precision and `ParseFloat`; float64 arithmetic;
-- `regexp.MustCompile(p).MatchString(s)` (`none` for a pattern that does not compile), and a match
-- expanded by a template; `gosnmp.ToBigInt`; whether `prometheus.NewConstMetric` accepts a name with
-- these label names and values; the Unix time of a date in a time zone, and of a text by a pattern.
pub record Host (F32 F64 : Type 0) : Type 0 where
  pub f32_text : F32 → Bytes
  pub f64_text : F64 → Bytes
  pub f64_parse : Bytes → Option F64
  pub f64_of_f32 : F32 → F64
  pub f64_of_int : ℤ → F64
  pub f64_of_uint : ℕ → F64
  pub f64_to_int : F64 → ℤ
  pub f64_is_zero : F64 → Bool
  pub f64_mul : F64 → F64 → F64
  pub f64_add : F64 → F64 → F64
  pub match_string : Bytes → Bytes → Option Bool
  pub expand_match : Bytes → Bytes → Bytes → Option Bytes
  pub to_big_int : Value F32 F64 → ℤ
  pub accepts_metric : Bytes → List Bytes → List Bytes → Bool
  pub parse_zone : Bytes → Option ℤ
  pub date_unix : List ℕ → ℤ → ℤ
  pub pattern_unix : Bytes → Bytes → Option ℤ

unfoldable pub is_object_identifier : Asn1Ber → Bool
is_object_identifier object_identifier = true
is_object_identifier _ = false

-- The type that decides how the bytes are shown.
unfoldable pub octet_type : Bytes → Bytes
octet_type typ = if equal typ [] || equal typ (text "Bits") then text "OctetString" else typ

-- The bytes as the oids of an index, the length in front where it is explicit in an index.
unfoldable pub octet_parts : Bytes → Bytes → List ℤ
octet_parts typ v =
    if equal typ (text "OctetString") || equal typ (text "DisplayString")
    then pos (length v) ∷ map pos v
    else map pos v

unfoldable pub octets_as_string : Bytes → Bytes → Option Bytes
octets_as_string typ v = do
  i ← index_oids_as_string (octet_parts (octet_type typ) v) (octet_type typ) (pos 0) false []
  some (to_valid_utf8 i.str)

unfoldable pub bytes_as_string : Bytes → Bytes → Bytes → Option Bytes
bytes_as_string typ display_hint v =
    if not (equal display_hint []) && (equal typ [] || equal typ (text "OctetString"))
    then (elim (apply_display_hint display_hint v) [
      | done result ↦ some (to_valid_utf8 result)
      | failed ↦ octets_as_string typ v
      | out_of_fuel ↦ none
    ])
    else octets_as_string typ v

-- `v[1:]`, which panics on the empty text.
unfoldable pub trim_first : Bytes → Option Bytes
trim_first [] = none
trim_first (c ∷ v) = some v

module _ {F32 F64 : Type 0} (host : Host F32 F64) where
  -- `pduValueAsString`. `none` is a panic.
  unfoldable pub pdu_value_as_string : Pdu F32 F64 → Bytes → Bytes → Option Bytes
  unfolding is_object_identifier
  pdu_value_as_string pdu typ display_hint = elim (pdu.value) [
    | int v ↦ some (itoa v)
    | uint v ↦ some (format_uint 10 v)
    | uint32 v ↦ some (format_uint 10 v)
    | uint64 v ↦ some (format_uint 10 v)
    | float32 v ↦ some (host.f32_text v)
    | float64 v ↦ some (host.f64_text v)
    | string v ↦ if is_object_identifier pdu.typ then trim_first v else some (to_valid_utf8 v)
    | bytes v ↦ bytes_as_string typ display_hint v
    | nothing ↦ some []
    | other v ↦ some v
  ]
