-- ===== src/Generator/Prepare/Inherit.antt =====
-- What the nodes get from table entries in `prepareTree` of generator/tree.go.
use snmp_exporter.Common.{
  ℕ, ◌≡◌, refl, sym, ap, ◌∙◌, true, false, List, [], ◌∷◌, arith, ◌⊎◌, inl, inr,
}
use mathlib.Core.Path.{subst}
use snmp_exporter.Common.Text.{Bytes}
use snmp_exporter.Generator.Tree.{NodeInfo, is_empty}
use snmp_exporter.Generator.Store.{
  Tree, Trees, at, no_trees, tree, Store, write, address_of, roots, walk_node, walk_nodes,
}
use snmp_exporter.Generator.Store.Frame.{
  listed, occurs, occurs_below, occurs_inside, listed-roots, occurs_inside-below, walk_nodes-frame,
  Apart, AllApart,
}
use snmp_exporter.Generator.Prepare.{take_indexes, take_all, copy_down, tweak_type, prepare_tree}

-- The same indexes.
abbrev pub Shares : NodeInfo → NodeInfo → Type 0
Shares n c = (c.indexes ≡ n.indexes) × (c.implied_index ≡ n.implied_index)

abbrev pub Gives : Store → NodeInfo → Trees → Type 0
Gives s n no_trees = Unit
Gives s n (tree t ts) = Shares n (s (address_of t)) × Gives s n ts

-- Each node with indexes has its children share them.
abbrev mutual
  pub Inherits : Store → Tree → Type 0
  Inherits s (at a children) =
      (((s a).indexes ≡ []) ⊎ Gives s (s a) children) × AllInherit s children

  pub AllInherit : Store → Trees → Type 0
  AllInherit s no_trees = Unit
  AllInherit s (tree t ts) = Inherits s t × AllInherit s ts

same-Shares : (n c : NodeInfo) → c ≡ n → Shares n c
same-Shares n c p = (ap (λ i. i.indexes) p, ap (λ i. i.implied_index) p)

Gives-agree :
    (s u : Store) (n m : NodeInfo) (ts : Trees)
    → ((b : ℕ) → occurs_below b ts ≡ true → Shares (s b) (u b))
    → Shares n m
    → Gives s n ts
    → Gives u m ts
Gives-agree s u n m no_trees e p g = tt
Gives-agree s u n m (tree (at a children) ts) e p (q, g) =
    let r = e a (ground arith) in
    (
      (r.0 ∙ (q.0 ∙ sym p.0), r.1 ∙ (q.1 ∙ sym p.1)),
      Gives-agree s u n m ts (λ b o. e b (ground arith)) p g,
    )

mutual
  -- It depends on the indexes only.
  Inherits-agree :
      (s u : Store) (t : Tree)
      → ((b : ℕ) → occurs b t ≡ true → Shares (s b) (u b))
      → Inherits s t
      → Inherits u t
  Inherits-agree s u (at a children) e (inl p, i) = (
    inl ((e a (ground arith)).0 ∙ p),
    AllInherit-agree s u children (λ b o. e b (ground arith)) i,
  )
  Inherits-agree s u (at a children) e (inr g, i) = (
    inr (Gives-agree s u (s a) (u a) children (λ b o. e b (ground arith)) (e a (ground arith)) g),
    AllInherit-agree s u children (λ b o. e b (ground arith)) i,
  )

  AllInherit-agree :
      (s u : Store) (ts : Trees)
      → ((b : ℕ) → occurs_below b ts ≡ true → Shares (s b) (u b))
      → AllInherit s ts
      → AllInherit u ts
  AllInherit-agree s u no_trees e i = tt
  AllInherit-agree s u (tree t ts) e (i, j) = (
    Inherits-agree s u t (λ b o. e b (ground arith)) i,
    AllInherit-agree s u ts (λ b o. e b (ground arith)) j,
  )

take_all-frame :
    (from b : ℕ) (l : List ℕ) (s : Store) → listed b l ≡ false → take_all from l s b ≡ s b
unfolding take_all take_indexes write
take_all-frame from b [] s p = refl
take_all-frame from b (a ∷ l) s p =
    take_all-frame from b l (take_indexes from a s) (ground arith) ∙ (ground arith)

copy_down-frame : (a b : ℕ) (l : List ℕ) (s : Store) → listed b l ≡ false → copy_down a l s b ≡ s b
unfolding copy_down
copy_down-frame a b l s p = ground (arith, take_all-frame a b l s)

take_indexes-Shares :
    (from a b : ℕ) (s : Store) (n : NodeInfo)
    → Shares n (s from)
    → Shares n (s b)
    → Shares n (take_indexes from a s b)
unfolding take_indexes write
take_indexes-Shares from a b s n p q = ground arith

take_indexes-new : (from a : ℕ) (s : Store) → Shares (s from) (take_indexes from a s a)
unfolding take_indexes write
take_indexes-new from a s = ground arith

take_all-Shares :
    (from b : ℕ) (l : List ℕ) (s : Store) (n : NodeInfo)
    → Shares n (s from)
    → Shares n (s b)
    → Shares n (take_all from l s b)
unfolding take_all
take_all-Shares from b [] s n p q = q
take_all-Shares from b (a ∷ l) s n p q =
    take_all-Shares from b l (take_indexes from a s) n (take_indexes-Shares from a from s n p p)
      (take_indexes-Shares from a b s n p q)

take_all-Gives :
    (a : ℕ) (ts : Trees) (s : Store) (n : NodeInfo)
    → Shares n (s a)
    → Gives (take_all a (roots ts) s) n ts
unfolding take_all
take_all-Gives a no_trees s n q = tt
take_all-Gives a (tree (at b children) ts) s n q =
    let u = take_indexes a b s in
    let r = take_indexes-Shares a b a s n q q in
    let new = take_indexes-new a b s in
    (take_all-Shares a b (roots ts) u n r (new.0 ∙ q.0, new.1 ∙ q.1), take_all-Gives a ts u n r)

copy_down-eq-take_all :
    (a : ℕ) (l : List ℕ) (s : Store)
    → is_empty (s a).indexes ≡ false
    → copy_down a l s ≡ take_all a l s
unfolding copy_down
copy_down-eq-take_all a l s p = rw p refl

copy_down-Gives :
    (a : ℕ) (ts : Trees) (s : Store)
    → ((s a).indexes ≡ []) ⊎ Gives (copy_down a (roots ts) s) (s a) ts
copy_down-Gives a ts s = by_indexes (s a).indexes refl
  where
    by_indexes :
        (l : List Bytes)
        → (s a).indexes ≡ l
        → ((s a).indexes ≡ []) ⊎ Gives (copy_down a (roots ts) s) (s a) ts
    by_indexes [] p = inl p
    by_indexes (i ∷ l) p = inr (
        subst (λ u. Gives u (s a) ts) (sym (copy_down-eq-take_all a (roots ts) s (ap is_empty p)))
          (take_all-Gives a ts s (s a) (refl, refl)))

-- The children are not below each other.
roots-not-inside :
    (c : ℕ) (ts : Trees) → AllApart ts → listed c (roots ts) ≡ true → occurs_inside c ts ≡ false
roots-not-inside c no_trees d p = refl
roots-not-inside c (tree (at b children) ts) ((q, d), (ds, e)) p =
    ground (arith, e c, roots-not-inside c ts ds, listed-roots c ts, occurs_inside-below c ts)

-- Walking the children keeps what their parent gave them.
walk_nodes-Gives :
    (ts us : Trees) (s : Store) (n : NodeInfo)
    → ((c : ℕ) → listed c (roots us) ≡ true → occurs_inside c ts ≡ false)
    → Gives s n us
    → Gives (walk_nodes copy_down ts s) n us
walk_nodes-Gives ts no_trees s n e g = tt
walk_nodes-Gives ts (tree (at b children) us) s n e (q, g) = (
  subst (Shares n) (sym (walk_nodes-frame copy_down copy_down-frame ts s b (e b (ground arith)))) q,
  walk_nodes-Gives ts us s n (λ c p. e c (ground arith)) g,
)

mutual
  unfolding walk_node

  walk_node-Inherits : (t : Tree) (s : Store) → Apart t → Inherits (walk_node copy_down t s) t
  walk_node-Inherits (at a children) s (p, d) =
      let u = copy_down a (roots children) s in
      let kept =
        walk_nodes-frame copy_down copy_down-frame children u a (occurs_inside-below a children p)
        ∙ copy_down-frame a a (roots children) s (listed-roots a children p) in
      (
        subst (λ n. (n.indexes ≡ []) ⊎ Gives (walk_nodes copy_down children u) n children)
            (sym kept)
            (elim (copy_down-Gives a children s) [
              | inl e ↦ inl e
              | inr g ↦ inr (
                  walk_nodes-Gives children children u (s a)
                    (λ c q. roots-not-inside c children d q) g)
            ]),
        walk_nodes-Inherits children u d,
      )

  walk_nodes-Inherits :
      (ts : Trees) (s : Store) → AllApart ts → AllInherit (walk_nodes copy_down ts s) ts
  walk_nodes-Inherits no_trees s d = tt
  walk_nodes-Inherits (tree t ts) s (d, (ds, e)) = (
    Inherits-agree (walk_node copy_down t s) (walk_nodes copy_down ts (walk_node copy_down t s)) t
        (λ b o. same-Shares _ _ (
          walk_nodes-frame copy_down copy_down-frame ts (walk_node copy_down t s) b
            (occurs_inside-below b ts (e b o))))
        (walk_node-Inherits t s d),
    walk_nodes-Inherits ts (walk_node copy_down t s) ds,
  )

tweak_type-Shares : (a b : ℕ) (l : List ℕ) (s : Store) → Shares (s b) (tweak_type a l s b)
unfolding tweak_type write
tweak_type-Shares a b l s = ground arith

mutual
  unfolding walk_node

  walk_node-tweak_type-Shares :
      (t : Tree) (s : Store) (b : ℕ) → Shares (s b) (walk_node tweak_type t s b)
  walk_node-tweak_type-Shares (at a children) s b =
      let p = tweak_type-Shares a b (roots children) s in
      let q = walk_nodes-tweak_type-Shares children (tweak_type a (roots children) s) b in
      (q.0 ∙ p.0, q.1 ∙ p.1)

  walk_nodes-tweak_type-Shares :
      (ts : Trees) (s : Store) (b : ℕ) → Shares (s b) (walk_nodes tweak_type ts s b)
  walk_nodes-tweak_type-Shares no_trees s b = (refl, refl)
  walk_nodes-tweak_type-Shares (tree t ts) s b =
      let p = walk_node-tweak_type-Shares t s b in
      let q = walk_nodes-tweak_type-Shares ts (walk_node tweak_type t s) b in (q.0 ∙ p.0, q.1 ∙ p.1)

-- In the tree that the function leaves behind, where no node stands in two places, the children of
-- every node with indexes have the same indexes, and the last of them is implied or not as in the node.
pub prepare_tree-Inherits : (t : Tree) (s : Store) → Apart t → Inherits (prepare_tree t s).1 t
unfolding prepare_tree
prepare_tree-Inherits t s d =
    Inherits-agree _ _ t (λ b o. walk_node-tweak_type-Shares t _ b) (walk_node-Inherits t _ d)
