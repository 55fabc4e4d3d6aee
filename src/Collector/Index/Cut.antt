-- ===== src/Collector/Index/Cut.antt =====
-- Which oids an index uses, and which it leaves.
use snmp_exporter.Common.{
  ℕ, ◌≡◌, refl, ◌∙◌, Bool, false, [], ◌++◌, if◌then◌else◌, Option, some, none, ◌>>=◌, Option-cases,
  inl, inr, length, length-append, if_ind,
}
use Prim.Native.String.{String}
use snmp_exporter.Common.Int.{ℤ, pos, negsuc}
use snmp_exporter.Common.Text.{Bytes, text, equal}
use snmp_exporter.Collector.Oid.{Oid, split_oid}
use snmp_exporter.Collector.Oid.Split.{length-split_oid, split_oid-add}
use snmp_exporter.Collector.Index.{
  Index, EnumMap, enum_value, int_eq, combined_type_mapping, index_switch, index_combined,
  index_oids_as_string, first, index_fixed, index_string, index_content, prepend_used,
  is_integer_type,
}
use snmp_exporter.Collector.Index.Fixpoint.{index_body-simple, index_body-combined}

-- The used oids are the first of the list, with zeros behind them where the list is short, and the
-- rest of the list remains.
abbrev pub Cuts : Oid → Oid → Oid → Type 0
Cuts oids used remaining = split_oid oids (length used) ≡ (used, remaining)

abbrev Cutting : Oid → Option Index → Type 0
Cutting oids none = Unit
Cutting oids (some i) = Cuts oids i.used i.remaining

Cuts-split_oid : (oids : Oid) (n : ℕ) → Cuts oids (split_oid oids n).0 (split_oid oids n).1
Cuts-split_oid oids n = rw (length-split_oid oids n) refl

pub Cuts-append : (oids a b r q : Oid) → Cuts oids a r → Cuts r b q → Cuts oids (a ++ b) q
Cuts-append oids a b r q h k =
    rw (length-append a b) (split_oid-add oids (length a) (length b) ∙ rw (h, k) refl)

index_content-Cutting :
    (show : Bytes → Bytes) (oids sub_oid rest : Oid) (size : ℤ)
    → Cuts oids sub_oid rest
    → Cutting oids (index_content show sub_oid rest size)
unfolding index_content
index_content-Cutting show oids sub_oid rest (negsuc n) h = tt
index_content-Cutting show oids sub_oid rest (pos n) h =
    Cuts-append oids sub_oid _ rest _ h (Cuts-split_oid rest n)

index_string-Cutting :
    (show : Bytes → Bytes) (oids : Oid) (size : ℤ) → Cutting oids (index_string show oids size)
unfolding index_string
index_string-Cutting show oids size =
    if_ind (Cutting oids) (int_eq size (pos 0))
      (index_content-Cutting show oids _ _ _ (Cuts-split_oid oids 1))
      (index_content-Cutting show oids [] oids size (unfold split_oid in refl))

index_fixed-Cutting :
    (show : Oid → Bytes) (oids : Oid) (n : ℕ) → Cutting oids (index_fixed show oids n)
unfolding index_fixed
index_fixed-Cutting show oids n = Cuts-split_oid oids n

pub index_switch-Cutting :
    (oids : Oid) (typ : Bytes) (size : ℤ) (implied : Bool) (enums : EnumMap)
    → Cutting oids (index_switch oids typ size implied enums)
unfolding index_switch
index_switch-Cutting oids typ size implied enums =
    let P = Cutting oids in
    let is = λ (name : String). equal typ (text name) in
    if_ind P (is_integer_type typ) (index_fixed-Cutting _ oids 1) (
      if_ind P (is "PhysAddress48") (index_fixed-Cutting _ oids 6) (
        if_ind P (is "OctetString") (index_string-Cutting _ oids _) (
          if_ind P (is "DisplayString") (index_string-Cutting _ oids _) (
            if_ind P (is "InetAddressIPv4") (index_fixed-Cutting _ oids 4) (
              if_ind P (is "InetAddressIPv6") (index_fixed-Cutting _ oids 16)
                (if_ind P (is "EnumAsInfo") (index_fixed-Cutting _ oids 1) tt))))))

bind-Cutting :
    (oids : Oid) (n : ℕ) (r : Option Index)
    → Cutting (split_oid oids n).1 r
    → Cutting oids (r >>= λ i. some (prepend_used (split_oid oids n).0 i))
bind-Cutting oids n none h = tt
bind-Cutting oids n (some i) h = Cuts-append oids _ _ _ _ (Cuts-split_oid oids n) h

index_combined-Cutting :
    (mapping : EnumMap) (oids : Oid) (typ : Bytes) (enums : EnumMap)
    → Cutting oids (index_combined index_switch mapping oids typ enums)
index_combined-Cutting mapping oids typ enums =
    let n : ℕ = (if equal typ (text "InetAddressMissingSize") then 1 else 2) in
    elim (Option-cases (enum_value mapping (first (split_oid oids n).0))) [
      | inr (t, e) ↦
          unfold index_combined in
          rw (e, index_combined)
            (bind-Cutting oids n _
              (index_switch-Cutting (split_oid oids n).1 t (pos 0) false enums))
      | inl unknown ↦
          unfold index_combined in
          rw (unknown, index_combined)
            (if_ind (Cutting oids) (equal typ (text "InetAddressMissingSize"))
              (index_switch-Cutting oids _ _ _ _) (index_switch-Cutting oids _ _ _ _))
    ]

index_oids_as_string-Cutting :
    (oids : Oid) (typ : Bytes) (size : ℤ) (implied : Bool) (enums : EnumMap)
    → Cutting oids (index_oids_as_string oids typ size implied enums)
unfolding index_oids_as_string
index_oids_as_string-Cutting oids typ size implied enums =
    elim (Option-cases (combined_type_mapping typ)) [
      | inl simple ↦
          rw (index_body-simple index_switch oids typ size implied enums simple)
            (index_switch-Cutting oids typ size implied enums)
      | inr (m, e) ↦
          rw (index_body-combined index_switch oids typ size implied enums e)
            (index_combined-Cutting m oids typ enums)
    ]

-- Where an index is read, of whatever type, the oids that it uses are the first ones of the list,
-- with zeros behind them where the list is too short, and exactly the oids behind those remain.
pub index_oids_as_string-Cuts :
    (oids : Oid) (typ : Bytes) (size : ℤ) (implied : Bool) (enums : EnumMap) {i : Index}
    → index_oids_as_string oids typ size implied enums ≡ some i
    → split_oid oids (length i.used) ≡ (i.used, i.remaining)
index_oids_as_string-Cuts oids typ size implied enums e =
    rw e at (index_oids_as_string-Cutting oids typ size implied enums)
