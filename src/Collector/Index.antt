-- ===== src/Collector/Index.antt =====
-- Index values out of an object identifier: `combinedTypeMapping` and `indexOidsAsString` of
-- collector/collector.go. `none` is a panic of the code. The memory that a length read from the
-- device asks for is not bounded here.
pub mod Cut
pub mod Fixpoint
use snmp_exporter.Common.{
  ℕ, zero, suc, ◌+◌, ◌-◌, ◌*◌, ◌/◌, ◌%◌, ◌^◌, ◌≤◌, ◌<◌, ◌≡◌, refl, Bool, true, false, not, ◌&&◌,
  ◌||◌, List, [], ◌∷◌, ◌++◌, map, arith, ltb, leb, ◌==◌, if◌then◌else◌, Option, some, none, length,
  ◌>>=◌, ◌↔◌,
}
use snmp_exporter.Common.Int.{ℤ, pos, negsuc}
use snmp_exporter.Common.Text.{Bytes, text, equal, join}
use snmp_exporter.Common.Decimal.{itoa, digits_onto, digit_char}
use snmp_exporter.Collector.Oid.{Oid, split_oid}
use snmp_exporter.Collector.DisplayHint.{write_hex}

-- `map[int]string`: the value of a key, if it has one.
abbrev pub EnumMap : Type 0
EnumMap = List (ℤ × Bytes)

unfoldable pub int_eq : ℤ → ℤ → Bool
int_eq (pos a) (pos b) = a == b
int_eq (negsuc a) (negsuc b) = a == b
int_eq _ _ = false

pub int_eq_iff : (a b : ℤ) → (int_eq a b ≡ true) ↔ (a ≡ b)
unfolding int_eq
int_eq_iff (pos a) (pos b) = ground arith
int_eq_iff (negsuc a) (negsuc b) = ground arith
int_eq_iff (pos a) (negsuc b) = ground arith
int_eq_iff (negsuc a) (pos b) = ground arith

unfoldable pub enum_value : EnumMap → ℤ → Option Bytes
unfolding int_eq
enum_value [] k = none
enum_value ((j, v) ∷ m) k = if int_eq j k then some v else enum_value m k

-- `combinedTypeMapping`: types preceded by an enum with their actual type.
unfoldable pub inet_address_types : EnumMap
inet_address_types = (pos 1, text "InetAddressIPv4") ∷ (pos 2, text "InetAddressIPv6") ∷ []

unfoldable pub lldp_port_id_types : EnumMap
lldp_port_id_types =
    (pos 1, text "DisplayString")
    ∷ (pos 2, text "DisplayString")
    ∷ (pos 3, text "PhysAddress48")
    ∷ (pos 5, text "DisplayString")
    ∷ (pos 7, text "DisplayString")
    ∷ []

unfoldable pub combined_type_mapping : Bytes → Option EnumMap
combined_type_mapping typ =
    if equal typ (text "InetAddress")
    then some inet_address_types
    else if equal typ (text "InetAddressMissingSize")
    then some inet_address_types
    else if equal typ (text "LldpPortId")
    then some lldp_port_id_types
    else none

-- What `indexOidsAsString` returns: the string, the oids that were used and the oids left over.
pub record Index : Type 0 where
  pub str : Bytes
  pub used : Oid
  pub remaining : Oid

-- `subOid[0]` and `subOid[1]` of a list that `splitOid` made long enough.
unfoldable pub first : Oid → ℤ
first [] = pos 0
first (o ∷ oid) = o

unfoldable pub second : Oid → ℤ
unfolding first
second [] = pos 0
second (o ∷ oid) = first oid

-- `byte(o)`.
unfoldable pub byte : ℤ → ℕ
byte (pos n) = n % 256
byte (negsuc n) = 255 - n % 256

-- `o + 2` on an int64.
unfoldable pub add_two : ℤ → ℤ
add_two (pos n) = if ltb (n + 2) (2 ^ 63) then pos (n + 2) else negsuc (2 ^ 64 - (n + 3))
add_two (negsuc zero) = pos 1
add_two (negsuc (suc zero)) = pos 0
add_two (negsuc (suc (suc n))) = negsuc n

-- "%02X": upper case, at least two places with the sign, filled up by zeros.
unfoldable pub format_02x : ℤ → Bytes
format_02x (pos n) = if ltb n 16 then b'0' ∷ digit_char n ∷ [] else digits_onto 16 n n []
format_02x (negsuc n) = b'-' ∷ digits_onto 16 (suc n) (suc n) []

unfoldable pub hex_pairs : Oid → List Bytes
hex_pairs [] = []
hex_pairs (a ∷ []) = format_02x a ∷ []
hex_pairs (a ∷ b ∷ oid) = (format_02x a ++ format_02x b) ∷ hex_pairs oid

-- A string of a length that comes from the type, from the rest of the oids, or, at 0, from the
-- first oid. A negative length makes `make` panic.
unfoldable pub string_length : Oid → ℤ → Bool → ℤ
string_length oids fixed_size implied = if implied then pos (length oids) else fixed_size

unfoldable pub index_content : (Bytes → Bytes) → Oid → Oid → ℤ → Option Index
index_content show sub_oid oids (negsuc n) = none
index_content show sub_oid oids (pos n) = some (record {
  str = show (map byte (split_oid oids n).0);
  used = sub_oid ++ (split_oid oids n).0;
  remaining = (split_oid oids n).1;
})

unfoldable pub index_string : (Bytes → Bytes) → Oid → ℤ → Option Index
index_string show oids size =
    if int_eq size (pos 0)
    then index_content show (split_oid oids 1).0 (split_oid oids 1).1 (first (split_oid oids 1).0)
    else index_content show [] oids size

-- "0x%X", and nothing for no bytes.
unfoldable pub hex_string : Bytes → Bytes
hex_string [] = []
hex_string (b ∷ parts) = b'0' ∷ b'x' ∷ write_hex (b ∷ parts)

abbrev pub as_is : Bytes → Bytes
as_is parts = parts

-- An index of a fixed count of oids.
unfoldable pub index_fixed : (Oid → Bytes) → Oid → ℕ → Option Index
index_fixed show oids count = some (record {
  str = show (split_oid oids count).0;
  used = (split_oid oids count).0;
  remaining = (split_oid oids count).1;
})

unfoldable pub enum_or_number : EnumMap → Oid → Bytes
enum_or_number enums sub_oid = elim (enum_value enums (first sub_oid)) [
  | some value ↦ value
  | none ↦ itoa (first sub_oid)
]

abbrev pub is_integer_type : Bytes → Bool
is_integer_type typ =
    equal typ (text "Integer32")
    || equal typ (text "Integer")
    || equal typ (text "gauge")
    || equal typ (text "counter")

-- The `switch` on the type.
unfoldable pub index_switch : Oid → Bytes → ℤ → Bool → EnumMap → Option Index
index_switch oids typ fixed_size implied enums =
    if is_integer_type typ
    then index_fixed (λ sub_oid. itoa (first sub_oid)) oids 1
    else if equal typ (text "PhysAddress48")
    then index_fixed (λ sub_oid. join (map format_02x sub_oid) b':') oids 6
    else if equal typ (text "OctetString")
    then index_string hex_string oids (string_length oids fixed_size implied)
    else if equal typ (text "DisplayString")
    then index_string as_is oids (string_length oids fixed_size implied)
    else if equal typ (text "InetAddressIPv4")
    then index_fixed (λ sub_oid. join (map itoa sub_oid) b'.') oids 4
    else if equal typ (text "InetAddressIPv6")
    then index_fixed (λ sub_oid. join (hex_pairs sub_oid) b':') oids 16
    else if equal typ (text "EnumAsInfo")
    then index_fixed (enum_or_number enums) oids 1
    else none

abbrev pub IndexFunction : Type 0
IndexFunction = Oid → Bytes → ℤ → Bool → EnumMap → Option Index

abbrev pub prepend_used : Oid → Index → Index
prepend_used sub_oid i = record i { used = sub_oid ++ i.used }

-- The branch of a combined type, over the function that it calls.
unfoldable pub index_combined : IndexFunction → EnumMap → Oid → Bytes → EnumMap → Option Index
index_combined rec mapping oids typ enums =
    let missing = equal typ (text "InetAddressMissingSize") in
    let cut = split_oid oids (if missing then 1 else 2) in
    elim (enum_value mapping (first cut.0)) [
      | some t ↦ do i ← rec cut.1 t (pos 0) false enums; some (prepend_used cut.0 i)
      | none ↦
          if missing
          then rec oids (text "OctetString") (pos 0) true enums
          else rec oids (text "OctetString") (add_two (second cut.0)) false enums
    ]

-- The body of `indexOidsAsString`, over the function that it calls.
unfoldable pub index_body : IndexFunction → IndexFunction
index_body rec oids typ fixed_size implied enums = elim (combined_type_mapping typ) [
  | some mapping ↦ index_combined rec mapping oids typ enums
  | none ↦ index_switch oids typ fixed_size implied enums
]

-- `indexOidsAsString`: its recursive calls are at types that are not combined.
unfoldable pub index_oids_as_string : IndexFunction
index_oids_as_string = index_body index_switch
