-- ===== src/Generator/Tree/Search.antt =====
-- What the search of the MIB tree finds.
use snmp_exporter.Common.{
  ◌≡◌, true, false, not, if◌then◌else◌, Option, some, none, Bool-cases, inl, inr, ◌↔◌,
}
use snmp_exporter.Common.Text.{Bytes, has_prefix}
use snmp_exporter.Generator.Minimize.{dotted}
use snmp_exporter.Generator.Tree.{
  NodeInfo, Node, node, Nodes, nil, cons, info, covers, search_node_tree, search_children,
}

-- No child's OID is a prefix of the OID in question.
pub data NoneCovers (oid : Bytes) : Nodes → Type 0 where
  none_nil : NoneCovers oid nil
  none_cons :
      {n : Node} {ns : Nodes}
      → covers oid (info n) ≡ false
      → NoneCovers oid ns
      → NoneCovers oid (cons n ns)

-- The node is in the tree, every node down to it covers the OID, and none of its children does.
mutual
  pub data Deepest (oid : Bytes) : NodeInfo → Node → Type 0 where
    here :
        {i : NodeInfo} {ns : Nodes}
        → covers oid i ≡ true
        → NoneCovers oid ns
        → Deepest oid i (node i ns)
    below :
        {i j : NodeInfo} {ns : Nodes}
        → covers oid i ≡ true
        → DeepestIn oid j ns
        → Deepest oid j (node i ns)

  -- The same, in the first of the nodes that covers the OID.
  pub data DeepestIn (oid : Bytes) : NodeInfo → Nodes → Type 0 where
    first : {j : NodeInfo} {n : Node} {ns : Nodes} → Deepest oid j n → DeepestIn oid j (cons n ns)
    later :
        {j : NodeInfo} {n : Node} {ns : Nodes}
        → covers oid (info n) ≡ false
        → DeepestIn oid j ns
        → DeepestIn oid j (cons n ns)

-- What a search of a node, and of its children, may answer.
abbrev Answer : Bytes → Node → Option NodeInfo → Type 0
Answer oid n none = covers oid (info n) ≡ false
Answer oid n (some i) = Deepest oid i n

abbrev AnswerIn : Bytes → Nodes → Option NodeInfo → Type 0
AnswerIn oid ns none = NoneCovers oid ns
AnswerIn oid ns (some i) = DeepestIn oid i ns

inside-Answer :
    (oid : Bytes) (i : NodeInfo) (ns : Nodes) (r : Option NodeInfo)
    → covers oid i ≡ true
    → AnswerIn oid ns r
    → Answer oid (node i ns) (elim r [ some match ↦ some match | none ↦ some i ])
inside-Answer oid i ns none c k = here c k
inside-Answer oid i ns (some j) c k = below c k

node-Answer :
    (oid : Bytes) (i : NodeInfo) (ns : Nodes) (r : Option NodeInfo)
    → AnswerIn oid ns r
    → Answer oid (node i ns) (
        if not (has_prefix (dotted oid) (dotted i.oid))
        then none
        else (elim r [ some match ↦ some match | none ↦ some i ]))
node-Answer oid i ns r h = elim (Bool-cases (has_prefix (dotted oid) (dotted i.oid))) [
  | inr outside ↦ rw outside outside
  | inl inside ↦ rw inside (inside-Answer oid i ns r inside h)
]

cons-Answer :
    (oid : Bytes) (n : Node) (ns : Nodes) (r q : Option NodeInfo)
    → Answer oid n r
    → AnswerIn oid ns q
    → AnswerIn oid (cons n ns) (elim r [ some match ↦ some match | none ↦ q ])
cons-Answer oid n ns (some i) q h k = first h
cons-Answer oid n ns none none h k = none_cons h k
cons-Answer oid n ns none (some j) h k = later h k

mutual
  unfolding search_node_tree

  search-Answer : (oid : Bytes) (n : Node) → Answer oid n (search_node_tree oid n)
  search-Answer oid (node i ns) =
      node-Answer oid i ns (search_children oid ns) (children-AnswerIn oid ns)

  children-AnswerIn : (oid : Bytes) (ns : Nodes) → AnswerIn oid ns (search_children oid ns)
  children-AnswerIn oid nil = none_nil
  children-AnswerIn oid (cons n ns) =
      cons-Answer oid n ns (search_node_tree oid n) (search_children oid ns) (search-Answer oid n)
        (children-AnswerIn oid ns)

-- The search finds a node whose OID, and that of every node above it, is a prefix of the given one
-- by whole components, and none of whose children has such an OID.
pub search_node_tree-Deepest :
    (oid : Bytes) (n : Node) {i : NodeInfo} → search_node_tree oid n ≡ some i → Deepest oid i n
search_node_tree-Deepest oid n e = rw e at (search-Answer oid n)

outside_none :
    (oid : Bytes) (n : Node) → covers oid (info n) ≡ false → search_node_tree oid n ≡ none
unfolding search_node_tree
outside_none oid (node i ns) h = rw h

-- It finds nothing exactly if the OID is not in the subtree of the root.
pub search_node_tree-eq-none :
    (oid : Bytes) (n : Node) → (search_node_tree oid n ≡ none) ↔ (covers oid (info n) ≡ false)
search_node_tree-eq-none oid n = (λ e. rw e at (search-Answer oid n), outside_none oid n)
