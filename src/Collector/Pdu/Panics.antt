-- ===== src/Collector/Pdu/Panics.antt =====
-- When `pduValueAsString` panics on bytes.
use snmp_exporter.Common.{
  ◌≡◌, refl, ◌∙◌, Bool, true, false, ◌||◌, [], ◌∷◌, map, Option, some, none, if_ind, arith, ◌>>=◌,
  length,
}
use Prim.Native.String.{String}
use snmp_exporter.Common.Int.{ℤ, pos, negsuc}
use snmp_exporter.Common.Text.{Bytes, text, equal}
use snmp_exporter.Common.Utf8.{to_valid_utf8}
use snmp_exporter.Collector.Oid.{Oid, split_oid}
use snmp_exporter.Collector.Index.{
  EnumMap, int_eq, first, index_fixed, index_content, index_string, index_switch, hex_string, as_is,
  index_oids_as_string, is_integer_type, combined_type_mapping, string_length,
}
use snmp_exporter.Collector.Index.Fixpoint.{index_body-simple}
use snmp_exporter.Collector.Pdu.{octet_type, octet_parts, octets_as_string}

abbrev pub is_some {ℓ} : {A : Type ℓ} → Option A → Bool
is_some none = false
is_some (some a) = true

-- The types that the switch of `indexOidsAsString` has a case for.
unfoldable pub is_index_type : Bytes → Bool
is_index_type typ =
    let is = λ (name : String). equal typ (text name) in
    is_integer_type typ
    || (is "PhysAddress48"
        || (is "OctetString"
            || (is "DisplayString"
                || (is "InetAddressIPv4" || (is "InetAddressIPv6" || (is "EnumAsInfo" || false))))))

abbrev IsPos : ℤ → Type 0
IsPos (pos n) = Unit
IsPos (negsuc n) = ⊥

index_content-is_some :
    (show : Bytes → Bytes) (sub_oid oids : Oid) (size : ℤ)
    → IsPos size
    → is_some (index_content show sub_oid oids size) ≡ true
unfolding index_content
index_content-is_some show sub_oid oids (pos n) p = refl
index_content-is_some show sub_oid oids (negsuc n) p = absurd p

index_string-is_some :
    (show : Bytes → Bytes) (oids : Oid)
    → IsPos (first (split_oid oids 1).0)
    → is_some (index_string show oids (string_length oids (pos 0) false)) ≡ true
unfolding index_string int_eq string_length
index_string-is_some show oids p = index_content-is_some show _ _ _ p

index_switch-is_some :
    (oids : Oid) (typ : Bytes) (enums : EnumMap)
    → IsPos (first (split_oid oids 1).0)
    → is_some (index_switch oids typ (pos 0) false enums) ≡ is_index_type typ
unfolding index_switch index_fixed is_index_type
index_switch-is_some oids typ enums p =
    ground (arith, index_string-is_some hex_string oids p, index_string-is_some as_is oids p)

map_pos-IsPos : (v : Bytes) → IsPos (first (split_oid (map pos v) 1).0)
unfolding first split_oid
map_pos-IsPos [] = tt
map_pos-IsPos (b ∷ v) = tt

length-IsPos : (v : Bytes) → IsPos (first (split_oid (pos (length v) ∷ map pos v) 1).0)
unfolding first split_oid
length-IsPos v = tt

is_some->>= :
    {A B : Type 0} (o : Option A) (f : A → B) → is_some (o >>= λ a. some (f a)) ≡ is_some o
is_some->>= none f = refl
is_some->>= (some a) f = refl

octet_parts-IsPos : (typ : Bytes) (v : Bytes) → IsPos (first (split_oid (octet_parts typ v) 1).0)
unfolding octet_parts
octet_parts-IsPos typ v =
    if_ind (λ oids. IsPos (first (split_oid oids 1).0)) _ (length-IsPos v) (map_pos-IsPos v)

-- Bytes without a DISPLAY-HINT, of a type that is not a combined one, are shown exactly if
-- `indexOidsAsString` has a case for the type; the code panics on the other types.
pub octets_as_string-is_some :
    (typ v : Bytes)
    → combined_type_mapping (octet_type typ) ≡ none
    → is_some (octets_as_string typ v) ≡ is_index_type (octet_type typ)
octets_as_string-is_some typ v simple =
    let t = octet_type typ in
    let oids = octet_parts t v in
    let shown : is_some (index_oids_as_string oids t (pos 0) false []) ≡ is_index_type t =
      unfold index_oids_as_string in
      rw (index_body-simple index_switch oids t (pos 0) false [] simple)
        (index_switch-is_some oids t [] (octet_parts-IsPos t v)) in
    unfold octets_as_string in
    is_some->>= (index_oids_as_string oids t (pos 0) false []) (λ i. to_valid_utf8 i.str) ∙ shown
