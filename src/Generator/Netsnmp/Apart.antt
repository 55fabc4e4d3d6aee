-- ===== src/Generator/Netsnmp/Apart.antt =====
-- In the tree that `buildMIBTree` of generator/net_snmp.go makes no node stands in two places.
use snmp_exporter.Common.{
  ℕ, ◌≤◌, ◌<◌, ◌≡◌, refl, ap, ◌∙◌, true, ◌||◌, arith, ◌⊎◌, inl, inr, ◌≢◌, if_ind,
}
use snmp_exporter.Common.Text.{Bytes}
use snmp_exporter.Generator.Store.{Tree, Trees, no_trees, tree, Store, write, address_of}
use snmp_exporter.Generator.Store.Frame.{occurs, occurs_below, Apart, AllApart, Disjoint}
use snmp_exporter.Generator.Netsnmp.{
  NetsnmpLibrary, StructTree, Peers, struct_tree, null, peer, Heap, put, less, reserve,
  insert_by_subid, sort_by_subid, mib_node, build_mib_tree, build_peers,
}

module _ (s : Store) where
  insert_by_subid-occurs :
      (b : ℕ) (t : Tree) (ts : Trees)
      → occurs_below b (insert_by_subid s t ts) ≡ (occurs b t || occurs_below b ts)
  unfolding insert_by_subid
  insert_by_subid-occurs b t no_trees = refl
  insert_by_subid-occurs b t (tree u ts) = ground (arith, insert_by_subid-occurs b t ts)

  pub sort_by_subid-occurs :
      (b : ℕ) (ts : Trees) → occurs_below b (sort_by_subid s ts) ≡ occurs_below b ts
  unfolding sort_by_subid
  sort_by_subid-occurs b no_trees = refl
  sort_by_subid-occurs b (tree t ts) =
      insert_by_subid-occurs b t (sort_by_subid s ts)
      ∙ ap (λ o. occurs b t || o) (sort_by_subid-occurs b ts)

  insert_by_subid-AllApart :
      (t : Tree) (ts : Trees)
      → Apart t
      → AllApart ts
      → Disjoint t ts
      → AllApart (insert_by_subid s t ts)
  unfolding insert_by_subid
  insert_by_subid-AllApart t no_trees p d e = (p, (tt, e))
  insert_by_subid-AllApart t (tree u ts) p (q, (d, f)) e =
      if_ind AllApart (less (s (address_of u)).subid (s (address_of t)).subid)
        (
          q,
          (
            insert_by_subid-AllApart t ts p d (λ b o. ground (arith, e b o)),
            λ b o. ground (arith, insert_by_subid-occurs b t ts, e b, f b o),
          ),
        )
        (p, ((q, (d, f)), e))

  pub sort_by_subid-AllApart : (ts : Trees) → AllApart ts → AllApart (sort_by_subid s ts)
  unfolding sort_by_subid
  sort_by_subid-AllApart no_trees d = tt
  sort_by_subid-AllApart (tree t ts) (p, (d, e)) =
      insert_by_subid-AllApart t (sort_by_subid s ts) p (sort_by_subid-AllApart ts d)
        (λ b o. sort_by_subid-occurs b ts ∙ e b o)

-- The nodes of the trees have been allocated.
abbrev pub Older : Heap → Trees → Type 0
Older h ts = (b : ℕ) → occurs_below b ts ≡ true → b < h.next

module _ (lib : NetsnmpLibrary) where
  mutual
    unfolding build_mib_tree put

    pub build_mib_tree-grows :
        (t : StructTree) (n : ℕ) (oid : Bytes) (h : Heap)
        → h.next ≤ (build_mib_tree lib t n oid h).1.next
    build_mib_tree-grows (struct_tree t null) n oid h = omega arith
    build_mib_tree-grows (struct_tree t (peer head peers)) n oid h =
        build_peers-grows (peer head peers) _ no_trees _

    pub build_peers-grows :
        (p : Peers) (oid : Bytes) (children : Trees) (h : Heap)
        → h.next ≤ (build_peers lib p oid children h).1.next
    build_peers-grows null oid children h = omega arith
    build_peers-grows (peer head peers) oid children h =
        let built = build_mib_tree lib head h.next oid (reserve h) in
        omega (
          arith,
          build_mib_tree-grows head h.next oid (reserve h),
          build_peers-grows peers oid (tree built.0 children) built.1,
        )

  mutual
    unfolding build_mib_tree put write

    -- Only the node itself and new ones are written.
    pub build_mib_tree-frame :
        (t : StructTree) (n : ℕ) (oid : Bytes) (h : Heap) (b : ℕ)
        → b < h.next
        → b ≢ n
        → (build_mib_tree lib t n oid h).1.store b ≡ h.store b
    build_mib_tree-frame (struct_tree t null) n oid h b p q = ground arith
    build_mib_tree-frame (struct_tree t (peer head peers)) n oid h b p q = ground (
      arith,
      build_peers-frame (peer head peers) (mib_node lib t n oid).oid no_trees
          (put n (mib_node lib t n oid) h) b p,
    )

    pub build_peers-frame :
        (p : Peers) (oid : Bytes) (children : Trees) (h : Heap) (b : ℕ)
        → b < h.next
        → (build_peers lib p oid children h).1.store b ≡ h.store b
    build_peers-frame null oid children h b p = refl
    build_peers-frame (peer head peers) oid children h b p =
        let built = build_mib_tree lib head h.next oid (reserve h) in
        build_peers-frame peers oid (tree built.0 children) built.1 b
          (omega (arith, build_mib_tree-grows head h.next oid (reserve h)))
        ∙ build_mib_tree-frame head h.next oid (reserve h) b (omega arith) (ground arith)

  -- The places of a tree are the node itself and new ones.
  mutual
    unfolding build_mib_tree put

    pub build_mib_tree-occurs :
        (t : StructTree) (n : ℕ) (oid : Bytes) (h : Heap) (b : ℕ)
        → occurs b (build_mib_tree lib t n oid h).0 ≡ true
        → (b ≡ n) ⊎ ((h.next ≤ b) × (b < (build_mib_tree lib t n oid h).1.next))
    build_mib_tree-occurs (struct_tree t null) n oid h b o = ground arith
    build_mib_tree-occurs (struct_tree t (peer head peers)) n oid h b o =
        let start = put n (mib_node lib t n oid) h in
        let built = build_peers lib (peer head peers) (mib_node lib t n oid).oid no_trees start in
        ground (
          arith,
          sort_by_subid-occurs built.1.store b built.0,
          build_peers-occurs (peer head peers) (mib_node lib t n oid).oid no_trees start b,
        )

    pub build_peers-occurs :
        (p : Peers) (oid : Bytes) (children : Trees) (h : Heap) (b : ℕ)
        → occurs_below b (build_peers lib p oid children h).0 ≡ true
        → (occurs_below b children ≡ true)
          ⊎ ((h.next ≤ b) × (b < (build_peers lib p oid children h).1.next))
    build_peers-occurs null oid children h b o = inl o
    build_peers-occurs (peer head peers) oid children h b o =
        let built = build_mib_tree lib head h.next oid (reserve h) in
        elim (build_peers-occurs peers oid (tree built.0 children) built.1 b o) [
          | inl p ↦ ground (
            arith,
            build_mib_tree-occurs head h.next oid (reserve h) b,
            build_mib_tree-grows head h.next oid (reserve h),
            build_peers-grows peers oid (tree built.0 children) built.1,
          )
          | inr p ↦ inr (omega (arith, build_mib_tree-grows head h.next oid (reserve h)))
        ]

  mutual
    unfolding build_mib_tree put

    pub build_mib_tree-Apart :
        (t : StructTree) (n : ℕ) (oid : Bytes) (h : Heap)
        → n < h.next
        → Apart (build_mib_tree lib t n oid h).0
    build_mib_tree-Apart (struct_tree t null) n oid h p = (refl, tt)
    build_mib_tree-Apart (struct_tree t (peer head peers)) n oid h p =
        let start = put n (mib_node lib t n oid) h in
        let built = build_peers lib (peer head peers) (mib_node lib t n oid).oid no_trees start in
        (
          ground (
            arith,
            sort_by_subid-occurs built.1.store n built.0,
            build_peers-occurs (peer head peers) (mib_node lib t n oid).oid no_trees start n,
          ),
          sort_by_subid-AllApart built.1.store built.0 (
              build_peers-AllApart (peer head peers) (mib_node lib t n oid).oid no_trees start tt
                (λ b o. cc)),
        )

    build_peers-AllApart :
        (p : Peers) (oid : Bytes) (children : Trees) (h : Heap)
        → AllApart children
        → Older h children
        → AllApart (build_peers lib p oid children h).0
    build_peers-AllApart null oid children h d e = d
    build_peers-AllApart (peer head peers) oid children h d e =
        let built = build_mib_tree lib head h.next oid (reserve h) in
        let grows = build_mib_tree-grows head h.next oid (reserve h) in
        build_peers-AllApart peers oid (tree built.0 children) built.1
          (
            build_mib_tree-Apart head h.next oid (reserve h) (omega arith),
            (d, λ b o. ground (arith, e b, build_mib_tree-occurs head h.next oid (reserve h) b o)),
          )
          (λ b o. ground (arith, e b, grows, build_mib_tree-occurs head h.next oid (reserve h) b))
