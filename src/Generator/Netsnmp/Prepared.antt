-- ===== src/Generator/Netsnmp/Prepared.antt =====
-- The tree of all MIBs from `getMIBTree` of generator/net_snmp.go, and `prepareTree` of
-- generator/tree.go on it.
use snmp_exporter.Common.{arith, []}
use snmp_exporter.Generator.Store.Frame.{Apart}
use snmp_exporter.Generator.Prepare.{prepare_tree}
use snmp_exporter.Generator.Prepare.Inherit.{Inherits, prepare_tree-Inherits}
use snmp_exporter.Generator.Netsnmp.{NetsnmpLibrary, StructTree, Heap, reserve, get_mib_tree}
use snmp_exporter.Generator.Netsnmp.Apart.{build_mib_tree-Apart}
use snmp_exporter.Generator.Netsnmp.Placed.{Numbered}
use snmp_exporter.Generator.Netsnmp.Numbered.{build_mib_tree-Numbered}

module _ (lib : NetsnmpLibrary) (head : StructTree) (h : Heap) where
  pub get_mib_tree-Apart : Apart (get_mib_tree lib head h).0
  unfolding get_mib_tree
  get_mib_tree-Apart = build_mib_tree-Apart lib head h.next [] (reserve h) (omega arith)

  -- In the tree of the MIBs every child has the OID of its parent with a number behind a dot, which is
  -- its `subid` as an int64, and the children of every node are in the order of these.
  pub get_mib_tree-Numbered : Numbered (get_mib_tree lib head h).1.store (get_mib_tree lib head h).0
  unfolding get_mib_tree
  get_mib_tree-Numbered = build_mib_tree-Numbered lib head h.next [] (reserve h) (omega arith)

  -- However the MIBs are made, after the preparation of their tree the children of every node with
  -- indexes have the same indexes, and the last of them is implied or not as in the node.
  pub get_mib_tree-Inherits :
      Inherits
        (prepare_tree (get_mib_tree lib head h).0 (get_mib_tree lib head h).1.store).1
        (get_mib_tree lib head h).0
  get_mib_tree-Inherits =
      prepare_tree-Inherits (get_mib_tree lib head h).0 (get_mib_tree lib head h).1.store
        get_mib_tree-Apart
