-- ===== src/Generator/Prepare.antt =====
-- `prepareTree` of generator/tree.go: the map from names to nodes, and the passes that change the
-- nodes. The state of a pass is the store.
pub mod Inherit
use snmp_exporter.Common.{
  ℕ, ◌≡◌, Bool, true, false, ◌&&◌, ◌||◌, List, [], ◌∷◌, ◌++◌, map, if◌then◌else◌, ◌==◌, Option,
  some, none,
}
use snmp_exporter.Common.Int.{ℤ, pos}
use snmp_exporter.Common.Text.{Bytes, equal, text}
use snmp_exporter.Common.Decimal.{is_digit}
use snmp_exporter.Common.Map.{lookup, insert}
use snmp_exporter.Collector.Index.{int_eq}
use snmp_exporter.Generator.Tree.{NodeInfo, one_of, is_empty}
use snmp_exporter.Generator.Store.{Tree, Store, write, walk_node, NameMap}
use snmp_exporter.Generator.Description.{first_sentence}

-- Its first pass, of which the state is the map.
unfoldable pub add_names : Store → ℕ → List ℕ → NameMap → NameMap
add_names s a children names = insert (s a).label a (insert (s a).oid a names)

unfoldable pub trim_description : ℕ → List ℕ → Store → Store
trim_description a children s =
    write a (record (s a) { description = first_sentence (s a).description }) s

-- Indexes called "INTEGER" get the name of the node.
unfoldable pub name_integers : ℕ → List ℕ → Store → Store
name_integers a children s =
    write a
      (record (s a) {
        indexes = map (λ i. if equal i (text "INTEGER") then (s a).label else i) (s a).indexes;
      })
      s

-- `n.Indexes = from.Indexes` and `n.ImpliedIndex = from.ImpliedIndex`, for the node at `a`.
unfoldable pub take_indexes : ℕ → ℕ → Store → Store
take_indexes from a s =
    write a (record (s a) { indexes = (s from).indexes; implied_index = (s from).implied_index }) s

unfoldable pub take_all : ℕ → List ℕ → Store → Store
unfolding take_indexes
take_all from [] s = s
take_all from (a ∷ l) s = take_all from l (take_indexes from a s)

unfoldable pub copy_augmented : NameMap → ℕ → List ℕ → Store → Store
unfolding take_all
copy_augmented names a children s =
    if equal (s a).augments [] then s else (elim (lookup (s a).augments names) [
      | none ↦ s
      | some augmented ↦ take_indexes augmented a (take_all augmented children s)
    ])

-- A table entry gives its indexes to its children.
unfoldable pub copy_down : ℕ → List ℕ → Store → Store
unfolding take_all
copy_down a children s = if is_empty (s a).indexes then s else take_all a children s

-- `\d*[at]$`, from here on.
unfoldable pub ends_in : Bytes → Bool
ends_in [] = false
ends_in (d ∷ []) = d == b'a' || d == b't'
ends_in (d ∷ e ∷ s) = is_digit d && ends_in (e ∷ s)

-- `^\d+[at]$`.
unfoldable pub is_display_string : Bytes → Bool
unfolding ends_in
is_display_string [] = false
is_display_string (c ∷ s) = is_digit c && ends_in s

-- The types that the textual convention gives, in the order of the tests, over the type so far.
unfoldable pub type_by_convention : Bytes → Bytes → Bytes
type_by_convention tc t =
    if one_of tc (
      text "Float"
      ∷ text "Double"
      ∷ text "DateAndTime"
      ∷ text "ParseDateAndTime"
      ∷ text "NTPTimeStamp"
      ∷ text "InetAddressIPv4"
      ∷ text "InetAddressIPv6"
      ∷ text "InetAddress"
      ∷ text "LldpPortId"
      ∷ text "DisplayString"
      ∷ [])
    then tc
    else if equal tc (text "PhysAddress")
    then text "PhysAddress48"
    else t

unfoldable pub type_by_hint : Bytes → ℤ → Bytes → Bytes
type_by_hint hint size t =
    if is_display_string hint
    then text "DisplayString"
    else if equal hint (text "1x:") && (int_eq size (pos 0) || int_eq size (pos 6))
    then text "PhysAddress48"
    else t

unfoldable pub tweaked_type : NodeInfo → Bytes
unfolding type_by_convention type_by_hint
tweaked_type n = type_by_convention n.textual_convention (type_by_hint n.hint n.fixed_size n.typ)

unfoldable pub tweak_type : ℕ → List ℕ → Store → Store
tweak_type a children s = write a (record (s a) { typ = tweaked_type (s a) }) s

unfoldable pub prepare_tree : Tree → Store → NameMap × Store
unfolding copy_augmented copy_down trim_description name_integers tweak_type add_names walk_node
prepare_tree nodes s =
    let names = walk_node (add_names s) nodes [] in
    let trimmed = walk_node trim_description nodes s in
    let named = walk_node name_integers nodes trimmed in
    let augmented = walk_node (copy_augmented names) nodes named in
    let copied = walk_node copy_down nodes augmented in (names, walk_node tweak_type nodes copied)
