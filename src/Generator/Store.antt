-- ===== src/Generator/Store.antt =====
-- The nodes of the MIB tree in a store: the generator changes them in place, through the tree and
-- through the map from names to nodes. With `walkNode` of generator/tree.go.
pub mod Frame
use snmp_exporter.Common.{ℕ, ◌≡◌, Bool, List, [], ◌∷◌, ◌==◌, if◌then◌else◌, Option, some, none}
use snmp_exporter.Common.Text.{Bytes}
use snmp_exporter.Common.Map.{lookup}
use snmp_exporter.Generator.Tree.{NodeInfo, Node, Nodes, node, nil, cons}

-- The pointers from nodes to their children.
mutual
  pub data Tree : Type 0 where
    at : ℕ → Trees → Tree

  pub data Trees : Type 0 where
    no_trees : Trees
    tree : Tree → Trees → Trees

abbrev pub Store : Type 0
Store = ℕ → NodeInfo

unfoldable pub write : ℕ → NodeInfo → Store → Store
write a n s b = if b == a then n else s b

abbrev pub address_of : Tree → ℕ
address_of (at a children) = a

abbrev pub roots : Trees → List ℕ
roots no_trees = []
roots (tree t ts) = address_of t ∷ roots ts

-- `walkNode`: `f` gets a node and its children, and the state that it changes.
module _ {S : Type 0} (f : ℕ → List ℕ → S → S) where
  unfoldable mutual
    pub walk_node : Tree → S → S
    walk_node (at a children) s = walk_nodes children (f a (roots children) s)

    pub walk_nodes : Trees → S → S
    walk_nodes no_trees s = s
    walk_nodes (tree t ts) s = walk_nodes ts (walk_node t s)

-- `map[string]*Node`.
abbrev pub NameMap : Type 0
NameMap = List (Bytes × ℕ)

-- `nameToNode[name]`.
unfoldable pub node_named : NameMap → Store → Bytes → Option NodeInfo
node_named names s name = elim (lookup name names) [ some a ↦ some (s a) | none ↦ none ]

-- The tree as it stands in the store.
unfoldable mutual
  pub snapshot : Store → Tree → Node
  snapshot s (at a children) = node (s a) (snapshots s children)

  pub snapshots : Store → Trees → Nodes
  snapshots s no_trees = nil
  snapshots s (tree t ts) = cons (snapshot s t) (snapshots s ts)
