-- ===== src/Generator/Netsnmp.antt =====
-- The NetSNMP binding of generator/net_snmp.go: `buildMIBTree` turns the C structures of the parsed
-- MIBs into the tree of nodes, and `Copy` copies a tree. The structures are an argument, with the
-- fields that the code reads; the nodes are in a store, and a new one gets the next free address.
pub mod Structures
pub mod Apart
pub mod Placed
pub mod Numbered
pub mod Prepared
pub mod Copied
use snmp_exporter.Common.{
  ℕ, suc, ◌+◌, ◌-◌, ◌^◌, ◌≡◌, Bool, true, false, not, ◌||◌, List, [], ◌∷◌, ◌++◌, ltb, leb, ◌==◌,
  if◌then◌else◌, Option, some, none,
}
use snmp_exporter.Common.Int.{ℤ, pos, negsuc}
use snmp_exporter.Common.Text.{Bytes, text, join, equal}
use snmp_exporter.Common.Decimal.{format_uint}
use snmp_exporter.Collector.Index.{EnumMap, int_eq, enum_value}
use snmp_exporter.Generator.Tree.{NodeInfo}
use snmp_exporter.Generator.Store.{Tree, Trees, at, no_trees, tree, Store, write, address_of}
unfoldable pub use Structures.*

-- `int64` of an unsigned number of 64 bits.
abbrev pub int64 : ℕ → ℤ
int64 n = if ltb n (2 ^ 63) then pos n else negsuc (2 ^ 64 - 1 - n)

-- `a < b`.
unfoldable pub less : ℤ → ℤ → Bool
less (pos a) (pos b) = ltb a b
less (pos a) (negsuc b) = false
less (negsuc a) (pos b) = true
less (negsuc a) (negsuc b) = ltb b a

-- `n.Oid`.
unfoldable pub oid_below : Bytes → ℕ → Bytes
oid_below oid subid =
    if equal oid [] then format_uint 10 subid else oid ++ (b'.' ∷ format_uint 10 subid)

-- `n.EnumValues[value] = label`.
unfoldable pub set_enum : ℤ → Bytes → EnumMap → EnumMap
set_enum value label [] = (value, label) ∷ []
set_enum value label ((v, l) ∷ m) =
    if int_eq v value then (v, label) ∷ m else (v, l) ∷ set_enum value label m

unfoldable pub set_enums : List (ℤ × CString) → EnumMap → EnumMap
unfolding set_enum
set_enums [] m = m
set_enums ((value, label) ∷ enums) m = set_enums enums (set_enum value (go_string label) m)

-- The loop over the indexes.
unfoldable pub name_indexes : List (CString × ℤ) → List Bytes → NodeInfo → NodeInfo
name_indexes [] indexes n = record n { indexes = indexes }
name_indexes ((ilabel, isimplied) ∷ rest) indexes n =
    name_indexes rest (indexes ++ go_string ilabel ∷ [])
      (if int_eq isimplied (pos 0) then n else record n { implied_index = true })

-- The nodes, and the next free address.
pub record Heap : Type 0 where
  pub next : ℕ
  pub store : Store

unfoldable pub put : ℕ → NodeInfo → Heap → Heap
unfolding write
put n i h = record h { store = write n i h.store }

abbrev pub reserve : Heap → Heap
reserve h = record h { next = suc h.next }

-- `n.Children[i].subid < n.Children[j].subid` as the order of the children; the order of children with
-- the same number is not fixed.
unfoldable pub insert_by_subid : Store → Tree → Trees → Trees
insert_by_subid s t no_trees = tree t no_trees
insert_by_subid s t (tree u ts) =
    if less (s (address_of u)).subid (s (address_of t)).subid
    then tree u (insert_by_subid s t ts)
    else tree t (tree u ts)

unfoldable pub sort_by_subid : Store → Trees → Trees
unfolding insert_by_subid
sort_by_subid s no_trees = no_trees
sort_by_subid s (tree t ts) = insert_by_subid s t (sort_by_subid s ts)

module _ (lib : NetsnmpLibrary) where
  abbrev pub module_name : Option CString → Bytes
  module_name none = []
  module_name (some name) = go_string name

  -- The node of an object until its children are looked at.
  unfoldable pub mib_node : MibObject → ℕ → Bytes → NodeInfo
  unfolding oid_below get_tc_fixed_size set_enums
  mib_node t n oid = record {
    address = n;
    oid = oid_below oid t.subid;
    subid = int64 t.subid;
    mib = module_name (lib.find_module t.modid);
    label = go_string t.label;
    augments = go_string t.augments;
    description = go_string t.description;
    typ = or_unknown (enum_value netsnmp_type_map t.typ);
    hint = go_string t.hint;
    textual_convention = go_string (lib.get_tc_descriptor t.tc_index);
    fixed_size = get_tc_fixed_size lib t.tc_index;
    units = go_string t.units;
    access = or_unknown (enum_value netsnmp_access_map t.access);
    enum_values = set_enums t.enums [];
    indexes = [];
    implied_index = false;
  }

  -- `buildMIBTree` for the node at `n`, and its loop over the children.
  unfoldable mutual
    unfolding put mib_node sort_by_subid name_indexes

    pub build_mib_tree : StructTree → ℕ → Bytes → Heap → Tree × Heap
    build_mib_tree (struct_tree t null) n oid h = (at n no_trees, put n (mib_node t n oid) h)
    build_mib_tree (struct_tree t (peer head peers)) n oid h =
        let built =
          build_peers (peer head peers) (mib_node t n oid).oid no_trees
            (put n (mib_node t n oid) h) in
        let children = sort_by_subid built.1.store built.0 in
        (at n children, put n (name_indexes t.indexes [] (built.1.store n)) built.1)

    pub build_peers : Peers → Bytes → Trees → Heap → Trees × Heap
    build_peers null oid children h = (children, h)
    build_peers (peer head peers) oid children h =
        let built = build_mib_tree head h.next oid (reserve h) in
        build_peers peers oid (tree built.0 children) built.1

  -- `getMIBTree`.
  unfoldable pub get_mib_tree : StructTree → Heap → Tree × Heap
  unfolding build_mib_tree
  get_mib_tree head h = build_mib_tree head h.next [] (reserve h)

-- `Copy`.
unfoldable mutual
  unfolding put

  pub copy : Tree → Heap → Tree × Heap
  copy (at a children) h =
      let new = put h.next (record (h.store a) { address = h.next }) (reserve h) in
      let copied = copy_children children new in (at h.next copied.0, copied.1)

  pub copy_children : Trees → Heap → Trees × Heap
  copy_children no_trees h = (no_trees, h)
  copy_children (tree t ts) h =
      let child = copy t h in let rest = copy_children ts child.1 in (tree child.0 rest.0, rest.1)
