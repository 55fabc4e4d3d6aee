-- ===== src/Generator/Netsnmp/Numbered.antt =====
-- The OIDs and the order of the children in the tree that `buildMIBTree` of generator/net_snmp.go
-- makes.
use snmp_exporter.Common.{
  ℕ, zero, suc, ◌/◌, ◌%◌, ◌==◌, ◌<◌, ◌≡◌, refl, sym, ◌∙◌, true, false, List, [], ◌∷◌, ◌++◌, arith,
  if_ind,
}
use snmp_exporter.Common.Int.{ℤ, pos}
use snmp_exporter.Common.Text.{Bytes, equal}
use snmp_exporter.Common.Decimal.{digits_onto, digit_char, format_uint}
use snmp_exporter.Collector.Index.{int_eq}
use snmp_exporter.Generator.Tree.{NodeInfo}
use snmp_exporter.Generator.Store.{Trees, no_trees, tree, write, address_of}
use snmp_exporter.Generator.Store.Frame.{occurs_below}
use snmp_exporter.Generator.Netsnmp.{
  CString, NetsnmpLibrary, StructTree, Peers, struct_tree, null, peer, Heap, put, reserve, int64,
  sort_by_subid, mib_node, name_indexes, MibObject, go_string, oid_below, build_mib_tree,
  build_peers,
}
use snmp_exporter.Generator.Netsnmp.Apart.{
  sort_by_subid-occurs, build_mib_tree-grows, build_mib_tree-frame, build_peers-frame,
  build_mib_tree-occurs, build_peers-occurs, Older,
}
use snmp_exporter.Generator.Netsnmp.Placed.{
  IsNumbered, Numbered, Placed, sort_by_subid-InOrder, sort_by_subid-Placed, InOrder-agree,
  Placed-agree,
}

-- A printed number is not empty, and neither is the OID of a node.
digits_onto-not_empty :
    (base fuel n c : ℕ) (out : Bytes) → equal (digits_onto base fuel n (c ∷ out)) [] ≡ false
unfolding digits_onto equal
digits_onto-not_empty base zero n c out = refl
digits_onto-not_empty base (suc fuel) n c out =
    if_ind (λ s. equal s [] ≡ false) (n == 0) refl
      (digits_onto-not_empty base fuel (n / base) (digit_char (n % base)) (c ∷ out))

format_uint-not_empty : (n : ℕ) → equal (format_uint 10 n) [] ≡ false
unfolding format_uint digits_onto equal
format_uint-not_empty zero = refl
format_uint-not_empty (suc n) =
    ground (arith, digits_onto-not_empty 10 n (suc n / 10) (digit_char (suc n % 10)) [])

oid_below-not_empty : (oid : Bytes) (k : ℕ) → equal (oid_below oid k) [] ≡ false
unfolding oid_below equal
oid_below-not_empty [] k = format_uint-not_empty k
oid_below-not_empty (c ∷ oid) k = refl

oid_below-below :
    (oid : Bytes) (k : ℕ)
    → equal oid [] ≡ false
    → oid_below oid k ≡ oid ++ (b'.' ∷ format_uint 10 k)
unfolding oid_below
oid_below-below oid k p = rw p refl

-- The loop over the indexes sets nothing else.
name_indexes-kept :
    (l : List (CString × ℤ)) (indexes : List Bytes) (n : NodeInfo)
    → ((name_indexes l indexes n).oid ≡ n.oid) × ((name_indexes l indexes n).subid ≡ n.subid)
unfolding name_indexes
name_indexes-kept [] indexes n = (refl, refl)
name_indexes-kept ((label, implied) ∷ l) indexes n =
    let more = indexes ++ go_string label ∷ [] in
    if_ind (λ m. ((name_indexes l more m).oid ≡ n.oid) × ((name_indexes l more m).subid ≡ n.subid))
      (int_eq implied (pos 0)) (name_indexes-kept l more n)
      (name_indexes-kept l more (record n { implied_index = true }))

module _ (lib : NetsnmpLibrary) where
  -- The node itself.
  build_mib_tree-node :
      (t : MibObject) (p : Peers) (n : ℕ) (oid : Bytes) (h : Heap)
      → n < h.next
      → ((build_mib_tree lib (struct_tree t p) n oid h).1.store n).oid ≡ oid_below oid t.subid
  unfolding build_mib_tree put write mib_node
  build_mib_tree-node t null n oid h q = ground arith
  build_mib_tree-node t (peer head peers) n oid h q =
      let start = put n (mib_node lib t n oid) h in
      let built = build_peers lib (peer head peers) (mib_node lib t n oid).oid no_trees start in
      ground (
        arith,
        (name_indexes-kept t.indexes [] (built.1.store n)).0,
        build_peers-frame lib (peer head peers) (mib_node lib t n oid).oid no_trees start n,
      )

  build_mib_tree-subid :
      (t : MibObject) (p : Peers) (n : ℕ) (oid : Bytes) (h : Heap)
      → n < h.next
      → ((build_mib_tree lib (struct_tree t p) n oid h).1.store n).subid ≡ int64 t.subid
  unfolding build_mib_tree put write mib_node
  build_mib_tree-subid t null n oid h q = ground arith
  build_mib_tree-subid t (peer head peers) n oid h q =
      let start = put n (mib_node lib t n oid) h in
      let built = build_peers lib (peer head peers) (mib_node lib t n oid).oid no_trees start in
      ground (
        arith,
        (name_indexes-kept t.indexes [] (built.1.store n)).1,
        build_peers-frame lib (peer head peers) (mib_node lib t n oid).oid no_trees start n,
      )

  build_mib_tree-IsNumbered :
      (t : StructTree) (n : ℕ) (oid : Bytes) (h : Heap)
      → n < h.next
      → equal oid [] ≡ false
      → IsNumbered oid
          ((build_mib_tree lib t n oid h).1.store (address_of (build_mib_tree lib t n oid h).0))
  unfolding build_mib_tree
  build_mib_tree-IsNumbered (struct_tree t null) n oid h q e = (
    t.subid,
    (
      build_mib_tree-subid t null n oid h q,
      build_mib_tree-node t null n oid h q ∙ oid_below-below oid t.subid e,
    ),
  )
  build_mib_tree-IsNumbered (struct_tree t (peer head peers)) n oid h q e = (
    t.subid,
    (
      build_mib_tree-subid t (peer head peers) n oid h q,
      build_mib_tree-node t (peer head peers) n oid h q ∙ oid_below-below oid t.subid e,
    ),
  )

  mutual
    unfolding build_mib_tree put write mib_node

    pub build_mib_tree-Numbered :
        (t : StructTree) (n : ℕ) (oid : Bytes) (h : Heap)
        → n < h.next
        → Numbered (build_mib_tree lib t n oid h).1.store (build_mib_tree lib t n oid h).0
    build_mib_tree-Numbered (struct_tree t null) n oid h q = (tt, tt)
    build_mib_tree-Numbered (struct_tree t (peer head peers)) n oid h q =
        let start = put n (mib_node lib t n oid) h in
        let own = (mib_node lib t n oid).oid in
        let built = build_peers lib (peer head peers) own no_trees start in
        let children = sort_by_subid built.1.store built.0 in
        let last = (build_mib_tree lib (struct_tree t (peer head peers)) n oid h).1.store in
        let kept : (b : ℕ) → occurs_below b children ≡ true → last b ≡ built.1.store b = λ b o.
          ground (
            arith,
            sort_by_subid-occurs built.1.store b built.0,
            build_peers-occurs lib (peer head peers) own no_trees start b,
          ) in
        let placed =
          build_peers-Placed (peer head peers) own no_trees start (oid_below-not_empty oid t.subid)
            (λ b o. cc) tt in
        (
          InOrder-agree built.1.store last children kept
              (sort_by_subid-InOrder built.1.store built.0),
          Placed-agree built.1.store last own (last n).oid children
              (sym (build_mib_tree-node t (peer head peers) n oid h q)) kept
              (sort_by_subid-Placed built.1.store own built.0 placed),
        )

    build_peers-Placed :
        (p : Peers) (oid : Bytes) (children : Trees) (h : Heap)
        → equal oid [] ≡ false
        → Older h children
        → Placed h.store oid children
        → Placed (build_peers lib p oid children h).1.store oid (build_peers lib p oid children h).0
    build_peers-Placed null oid children h e older q = q
    build_peers-Placed (peer head peers) oid children h e older q =
        let built = build_mib_tree lib head h.next oid (reserve h) in
        let grows = build_mib_tree-grows lib head h.next oid (reserve h) in
        build_peers-Placed peers oid (tree built.0 children) built.1 e
          (λ b o.
            ground (arith, older b, grows, build_mib_tree-occurs lib head h.next oid (reserve h) b))
          (
            (
              build_mib_tree-IsNumbered head h.next oid (reserve h) (omega arith) e,
              build_mib_tree-Numbered head h.next oid (reserve h) (omega arith),
            ),
            Placed-agree h.store built.1.store oid oid children refl
                (λ b o.
                  ground (arith, older b o, build_mib_tree-frame lib head h.next oid (reserve h) b))
                q,
          )
