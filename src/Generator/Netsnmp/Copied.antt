-- ===== src/Generator/Netsnmp/Copied.antt =====
-- `Copy` of generator/net_snmp.go makes a tree of new nodes that is alike, and changes no other node.
use snmp_exporter.Common.{ℕ, suc, ◌≤◌, ◌<◌, ◌≡◌, refl, ap, ◌∙◌, true, arith}
use snmp_exporter.Generator.Tree.{NodeInfo, Node, Nodes, node, nil, cons}
use snmp_exporter.Generator.Store.{
  Tree, Trees, at, no_trees, tree, Store, write, snapshot, snapshots,
}
use snmp_exporter.Generator.Store.Frame.{occurs, occurs_below, Apart, AllApart}
use snmp_exporter.Generator.Netsnmp.{Heap, put, reserve, copy, copy_children}
use snmp_exporter.Generator.Netsnmp.Apart.{Older}

-- A node without its address, and a tree of such.
abbrev pub placeless : NodeInfo → NodeInfo
placeless n = record n { address = 0 }

abbrev mutual
  pub anywhere : Node → Node
  anywhere (node n children) = node (placeless n) (all_anywhere children)

  pub all_anywhere : Nodes → Nodes
  all_anywhere nil = nil
  all_anywhere (cons n ns) = cons (anywhere n) (all_anywhere ns)

abbrev pub Allocated : Heap → Tree → Type 0
Allocated h t = (b : ℕ) → occurs b t ≡ true → b < h.next

mutual
  unfolding copy put

  pub copy-grows : (t : Tree) (h : Heap) → suc h.next ≤ (copy t h).1.next
  copy-grows (at a children) h =
      copy_children-grows children
        (put h.next (record (h.store a) { address = h.next }) (reserve h))

  pub copy_children-grows : (ts : Trees) (h : Heap) → h.next ≤ (copy_children ts h).1.next
  copy_children-grows no_trees h = omega arith
  copy_children-grows (tree t ts) h =
      omega (arith, copy-grows t h, copy_children-grows ts (copy t h).1)

mutual
  unfolding copy put write

  pub copy-frame : (t : Tree) (h : Heap) (b : ℕ) → b < h.next → (copy t h).1.store b ≡ h.store b
  copy-frame (at a children) h b p = ground (
    arith,
    copy_children-frame children (put h.next (record (h.store a) { address = h.next }) (reserve h))
        b,
  )

  pub copy_children-frame :
      (ts : Trees) (h : Heap) (b : ℕ) → b < h.next → (copy_children ts h).1.store b ≡ h.store b
  copy_children-frame no_trees h b p = refl
  copy_children-frame (tree t ts) h b p =
      copy_children-frame ts (copy t h).1 b (omega (arith, copy-grows t h)) ∙ copy-frame t h b p

-- The nodes of the copy are new.
mutual
  unfolding copy put

  pub copy-occurs :
      (t : Tree) (h : Heap) (b : ℕ)
      → occurs b (copy t h).0 ≡ true
      → (h.next ≤ b) × (b < (copy t h).1.next)
  copy-occurs (at a children) h b o =
      let new = put h.next (record (h.store a) { address = h.next }) (reserve h) in
      ground (arith, copy_children-occurs children new b, copy_children-grows children new)

  pub copy_children-occurs :
      (ts : Trees) (h : Heap) (b : ℕ)
      → occurs_below b (copy_children ts h).0 ≡ true
      → (h.next ≤ b) × (b < (copy_children ts h).1.next)
  copy_children-occurs no_trees h b o = cc
  copy_children-occurs (tree t ts) h b o = ground (
    arith,
    copy-occurs t h b,
    copy-grows t h,
    copy_children-grows ts (copy t h).1,
    copy_children-occurs ts (copy t h).1 b,
  )

mutual
  unfolding copy put

  pub copy-Apart : (t : Tree) (h : Heap) → Apart (copy t h).0
  copy-Apart (at a children) h =
      let new = put h.next (record (h.store a) { address = h.next }) (reserve h) in
      (
        ground (arith, copy_children-occurs children new h.next),
        copy_children-AllApart children new,
      )

  copy_children-AllApart : (ts : Trees) (h : Heap) → AllApart (copy_children ts h).0
  copy_children-AllApart no_trees h = tt
  copy_children-AllApart (tree t ts) h = (
    copy-Apart t h,
    (
      copy_children-AllApart ts (copy t h).1,
      λ b o. ground (arith, copy-occurs t h b o, copy_children-occurs ts (copy t h).1 b),
    ),
  )

-- The snapshot of a tree depends on its nodes only.
module _ (s u : Store) where
  mutual
    unfolding snapshot

    pub snapshot-agree :
        (t : Tree) → ((b : ℕ) → occurs b t ≡ true → s b ≡ u b) → snapshot s t ≡ snapshot u t
    snapshot-agree (at a children) e =
        let p = e a (ground arith) in
        let q = snapshots-agree children (λ b o. e b (ground arith)) in cc

    pub snapshots-agree :
        (ts : Trees)
        → ((b : ℕ) → occurs_below b ts ≡ true → s b ≡ u b)
        → snapshots s ts ≡ snapshots u ts
    snapshots-agree no_trees e = refl
    snapshots-agree (tree t ts) e =
        let p = snapshot-agree t (λ b o. e b (ground arith)) in
        let q = snapshots-agree ts (λ b o. e b (ground arith)) in cc

equal_nodes : {i j : NodeInfo} {ns ms : Nodes} → i ≡ j → ns ≡ ms → node i ns ≡ node j ms
equal_nodes p q = cc

equal_lists : {n m : Node} {ns ms : Nodes} → n ≡ m → ns ≡ ms → cons n ns ≡ cons m ms
equal_lists p q = cc

-- Node by node the copy is like the tree.
mutual
  unfolding copy put write snapshot

  pub copy-snapshot :
      (t : Tree) (h : Heap)
      → Allocated h t
      → anywhere (snapshot (copy t h).1.store (copy t h).0) ≡ anywhere (snapshot h.store t)
  copy-snapshot (at a children) h older =
      let new = put h.next (record (h.store a) { address = h.next }) (reserve h) in
      let p = copy_children-frame children new h.next (omega arith) in
      let q = copy_children-snapshot children new (λ b o. ground (arith, older b)) in
      let r =
        snapshots-agree new.store h.store children
          (λ b o. ground (arith, older b (ground arith))) in
      let own : new.store h.next ≡ record (h.store a) { address = h.next } = ground arith in
      let w : placeless ((copy_children children new).1.store h.next) ≡ placeless (h.store a) =
        ap placeless (p ∙ own) in
      equal_nodes w (q ∙ ap all_anywhere r)

  copy_children-snapshot :
      (ts : Trees) (h : Heap)
      → Older h ts
      → all_anywhere (snapshots (copy_children ts h).1.store (copy_children ts h).0)
        ≡ all_anywhere (snapshots h.store ts)
  copy_children-snapshot no_trees h older = refl
  copy_children-snapshot (tree t ts) h older =
      let first = copy t h in
      let rest = copy_children ts first.1 in
      let p = copy-snapshot t h (λ b o. older b (ground arith)) in
      let q =
        copy_children-snapshot ts first.1
          (λ b o. ground (arith, copy-grows t h, older b (ground arith))) in
      let r =
        snapshot-agree rest.1.store first.1.store first.0
          (λ b o. copy_children-frame ts first.1 b (copy-occurs t h b o).1) in
      let v =
        snapshots-agree first.1.store h.store ts
          (λ b o. copy-frame t h b (older b (ground arith))) in
      equal_lists (ap anywhere r ∙ p) (q ∙ ap all_anywhere v)
