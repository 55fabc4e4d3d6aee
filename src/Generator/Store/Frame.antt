-- ===== src/Generator/Store/Frame.antt =====
-- What a walk over the nodes leaves as it is, for `walkNode` of generator/tree.go.
use snmp_exporter.Common.{ℕ, ◌≡◌, refl, ◌∙◌, Bool, true, false, ◌||◌, List, [], ◌∷◌, ◌==◌, arith}
use snmp_exporter.Generator.Store.{
  Tree, Trees, at, no_trees, tree, Store, roots, walk_node, walk_nodes,
}

abbrev pub listed : ℕ → List ℕ → Bool
listed a [] = false
listed a (b ∷ l) = a == b || listed a l

-- The nodes of a tree are in no other place of it: `Apart` of a node, its children and theirs.
abbrev mutual
  pub occurs : ℕ → Tree → Bool
  occurs b (at a children) = b == a || occurs_below b children

  pub occurs_below : ℕ → Trees → Bool
  occurs_below b no_trees = false
  occurs_below b (tree t ts) = occurs b t || occurs_below b ts

abbrev pub below : Tree → Trees
below (at a children) = children

abbrev pub Disjoint : Tree → Trees → Type 0
Disjoint t ts = (b : ℕ) → occurs b t ≡ true → occurs_below b ts ≡ false

abbrev mutual
  pub Apart : Tree → Type 0
  Apart (at a children) = (occurs_below a children ≡ false) × AllApart children

  pub AllApart : Trees → Type 0
  AllApart no_trees = Unit
  AllApart (tree t ts) = Apart t × (AllApart ts × Disjoint t ts)

-- Below one of the trees, and not its root.
abbrev pub occurs_inside : ℕ → Trees → Bool
occurs_inside b no_trees = false
occurs_inside b (tree t ts) = occurs_below b (below t) || occurs_inside b ts

pub listed-roots : (b : ℕ) (ts : Trees) → occurs_below b ts ≡ false → listed b (roots ts) ≡ false
listed-roots b no_trees p = refl
listed-roots b (tree (at a children) ts) p = ground (arith, listed-roots b ts)

pub occurs_inside-below :
    (b : ℕ) (ts : Trees) → occurs_below b ts ≡ false → occurs_inside b ts ≡ false
occurs_inside-below b no_trees p = refl
occurs_inside-below b (tree (at a children) ts) p = ground (arith, occurs_inside-below b ts)

-- A pass that changes children only.
module _ (f : ℕ → List ℕ → Store → Store)
    (frame : (a b : ℕ) (l : List ℕ) (s : Store) → listed b l ≡ false → f a l s b ≡ s b) where
  mutual
    unfolding walk_node

    pub walk_node-frame :
        (t : Tree) (s : Store) (b : ℕ) → occurs_below b (below t) ≡ false → walk_node f t s b ≡ s b
    walk_node-frame (at a children) s b p =
        walk_nodes-frame children (f a (roots children) s) b (occurs_inside-below b children p)
        ∙ frame a b (roots children) s (listed-roots b children p)

    pub walk_nodes-frame :
        (ts : Trees) (s : Store) (b : ℕ) → occurs_inside b ts ≡ false → walk_nodes f ts s b ≡ s b
    walk_nodes-frame no_trees s b p = refl
    walk_nodes-frame (tree t ts) s b p =
        walk_nodes-frame ts (walk_node f t s) b (ground arith)
        ∙ walk_node-frame t s b (ground arith)
