-- ===== src/Generator/Netsnmp/Placed.antt =====
-- Numbers and order of the nodes in a tree, for `buildMIBTree` of generator/net_snmp.go.
use snmp_exporter.Common.{
  ℕ, ◌≡◌, sym, ap, ◌∙◌, true, false, ◌∷◌, ◌++◌, arith, inl, inr, if_ind, Bool-cases,
}
use snmp_exporter.Common.Int.{ℤ, pos, negsuc}
use snmp_exporter.Common.Text.{Bytes}
use snmp_exporter.Common.Decimal.{format_uint}
use snmp_exporter.Generator.Tree.{NodeInfo}
use snmp_exporter.Generator.Store.{Tree, Trees, at, no_trees, tree, Store, address_of}
use snmp_exporter.Generator.Store.Frame.{occurs, occurs_below}
use snmp_exporter.Generator.Netsnmp.{less, int64, insert_by_subid, sort_by_subid}

-- A node below an OID: its own is the number of the node behind it.
abbrev pub IsNumbered : Bytes → NodeInfo → Type 0
IsNumbered oid n = (k : ℕ) × ((n.subid ≡ int64 k) × (n.oid ≡ oid ++ (b'.' ∷ format_uint 10 k)))

-- The first tree has no smaller number.
abbrev pub AtLeast : Store → ℤ → Trees → Type 0
AtLeast s i no_trees = Unit
AtLeast s i (tree t ts) = less (s (address_of t)).subid i ≡ false

abbrev pub InOrder : Store → Trees → Type 0
InOrder s no_trees = Unit
InOrder s (tree t ts) = AtLeast s (s (address_of t)).subid ts × InOrder s ts

-- All through the tree the children are numbered below their parent, and in the order of the numbers.
abbrev mutual
  pub Numbered : Store → Tree → Type 0
  Numbered s (at a children) = InOrder s children × Placed s (s a).oid children

  pub Placed : Store → Bytes → Trees → Type 0
  Placed s oid no_trees = Unit
  Placed s oid (tree t ts) = (IsNumbered oid (s (address_of t)) × Numbered s t) × Placed s oid ts

less-asymmetric : (i j : ℤ) → less i j ≡ true → less j i ≡ false
unfolding less
less-asymmetric (pos a) (pos b) p = ground arith
less-asymmetric (pos a) (negsuc b) p = ground arith
less-asymmetric (negsuc a) (pos b) p = ground arith
less-asymmetric (negsuc a) (negsuc b) p = ground arith

module _ (s : Store) where
  insert_by_subid-AtLeast :
      (i : ℤ) (t : Tree) (ts : Trees)
      → less (s (address_of t)).subid i ≡ false
      → AtLeast s i ts
      → AtLeast s i (insert_by_subid s t ts)
  unfolding insert_by_subid
  insert_by_subid-AtLeast i t no_trees p q = p
  insert_by_subid-AtLeast i t (tree u ts) p q =
      if_ind (AtLeast s i) (less (s (address_of u)).subid (s (address_of t)).subid) q p

  insert_by_subid-InOrder :
      (t : Tree) (ts : Trees) → InOrder s ts → InOrder s (insert_by_subid s t ts)
  unfolding insert_by_subid
  insert_by_subid-InOrder t no_trees o = (tt, tt)
  insert_by_subid-InOrder t (tree u ts) (p, o) =
      elim (Bool-cases (less (s (address_of u)).subid (s (address_of t)).subid)) [
        | inl q ↦ rw q (
          insert_by_subid-AtLeast (s (address_of u)).subid t ts (less-asymmetric _ _ q) p,
          insert_by_subid-InOrder t ts o,
        )
        | inr q ↦ rw q (q, (p, o))
      ]

  pub sort_by_subid-InOrder : (ts : Trees) → InOrder s (sort_by_subid s ts)
  unfolding sort_by_subid
  sort_by_subid-InOrder no_trees = tt
  sort_by_subid-InOrder (tree t ts) =
      insert_by_subid-InOrder t (sort_by_subid s ts) (sort_by_subid-InOrder ts)

  insert_by_subid-Placed :
      (oid : Bytes) (t : Tree) (ts : Trees)
      → IsNumbered oid (s (address_of t)) × Numbered s t
      → Placed s oid ts
      → Placed s oid (insert_by_subid s t ts)
  unfolding insert_by_subid
  insert_by_subid-Placed oid t no_trees p q = (p, q)
  insert_by_subid-Placed oid t (tree u ts) p (r, q) =
      if_ind (Placed s oid) (less (s (address_of u)).subid (s (address_of t)).subid)
        (r, insert_by_subid-Placed oid t ts p q) (p, (r, q))

  pub sort_by_subid-Placed :
      (oid : Bytes) (ts : Trees) → Placed s oid ts → Placed s oid (sort_by_subid s ts)
  unfolding sort_by_subid
  sort_by_subid-Placed oid no_trees p = tt
  sort_by_subid-Placed oid (tree t ts) (p, q) =
      insert_by_subid-Placed oid t (sort_by_subid s ts) p (sort_by_subid-Placed oid ts q)

-- It depends on the nodes in the tree only.
module _ (s u : Store) where
  pub InOrder-agree :
      (ts : Trees) → ((b : ℕ) → occurs_below b ts ≡ true → u b ≡ s b) → InOrder s ts → InOrder u ts
  InOrder-agree no_trees e o = tt
  InOrder-agree (tree (at a children) no_trees) e o = (tt, tt)
  InOrder-agree (tree (at a children) (tree (at b below) ts)) e (p, o) =
      (ground (arith, e a, e b), InOrder-agree (tree (at b below) ts) (λ c q. e c (ground arith)) o)

  mutual
    pub Numbered-agree :
        (t : Tree) → ((b : ℕ) → occurs b t ≡ true → u b ≡ s b) → Numbered s t → Numbered u t
    Numbered-agree (at a children) e (o, p) = (
      InOrder-agree children (λ b q. e b (ground arith)) o,
      Placed-agree (s a).oid (u a).oid children (ap (λ n. n.oid) (sym (e a (ground arith))))
          (λ b q. e b (ground arith)) p,
    )

    pub Placed-agree :
        (oid next : Bytes) (ts : Trees)
        → oid ≡ next
        → ((b : ℕ) → occurs_below b ts ≡ true → u b ≡ s b)
        → Placed s oid ts
        → Placed u next ts
    Placed-agree oid next no_trees p e q = tt
    Placed-agree oid next (tree (at a children) ts) p e (((k, (i, j)), q), r) =
        let same = e a (ground arith) in
        (
          (
            (
              k,
              (
                ap (λ n. n.subid) same ∙ i,
                ap (λ n. n.oid) same ∙ (j ∙ ap (λ o. o ++ (b'.' ∷ format_uint 10 k)) p),
              ),
            ),
            Numbered-agree (at a children) (λ b o. e b (ground arith)) q,
          ),
          Placed-agree oid next ts p (λ b o. e b (ground arith)) r,
        )
