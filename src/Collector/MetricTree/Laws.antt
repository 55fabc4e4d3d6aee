-- ===== src/Collector/MetricTree/Laws.antt =====
-- The tree of metrics against the list of metrics that it is built from.
pub mod Found
use snmp_exporter.Common.{
  ◌≡◌, refl, sym, ap, ◌∙◌, Bool, true, false, ◌&&◌, List, [], ◌∷◌, arith, if◌then◌else◌, Option,
  some, none, Option-cases, Bool-cases, inl, inr,
}
use mathlib.Core.Path.{fun_ext, ap₂}
use snmp_exporter.Common.Int.{ℤ}
use snmp_exporter.Common.Text.{Bytes}
use snmp_exporter.Collector.Oid.{Oid, oid_to_list}
use snmp_exporter.Collector.Index.{int_eq, int_eq_iff}
use snmp_exporter.Collector.MetricTree.{
  MetricNode, node, Children, nil, cons, empty_node, child, update_child, insert, insert_all,
  build_metric_tree, metric, find,
}

pub oid_eq : Oid → Oid → Bool
oid_eq [] [] = true
oid_eq (a ∷ p) (b ∷ q) = int_eq a b && oid_eq p q
oid_eq _ _ = false

oid_eq-cons : (o r : ℤ) (q p : Oid) → oid_eq (o ∷ q) (r ∷ p) ≡ (int_eq o r && oid_eq q p)
unfolding oid_eq
oid_eq-cons o r q p = refl

module _ {M : Type 0} where
  -- The metric at the end of a path.
  pub at : Oid → MetricNode M → Option M
  at [] (node x cs) = x
  at (o ∷ oid) (node x cs) = elim (child o cs) [ none ↦ none | some n ↦ at oid n ]

  -- What a child answers on the path behind it.
  below : Oid → Option (MetricNode M) → Option M
  below p none = none
  below p (some n) = at p n

  at-cons :
      (o : ℤ) (p : Oid) (x : Option M) (cs : Children M)
      → at (o ∷ p) (node x cs) ≡ below p (child o cs)
  unfolding at below
  at-cons o p x cs = ground arith

  child-update_child :
      (f : MetricNode M → MetricNode M) (o q : ℤ) (cs : Children M)
      → child q (update_child f o cs) ≡ (
          if int_eq o q
          then some (f (elim (child o cs) [ none ↦ empty_node | some n ↦ n ]))
          else child q cs)
  unfolding child update_child
  child-update_child f o q nil = ground arith
  child-update_child f o q (cons p n cs) =
      ground (arith, int_eq_iff p o, int_eq_iff p q, int_eq_iff o q, child-update_child f o q cs)

  at_empty : (p : Oid) → at p empty_node ≡ none
  unfolding at child
  at_empty [] = refl
  at_empty (o ∷ p) = refl

  at_default :
      (p : Oid) (c : Option (MetricNode M))
      → at p (elim c [ none ↦ empty_node | some n ↦ n ]) ≡ below p c
  unfolding below
  at_default p none = at_empty p
  at_default p (some n) = refl

  below-insert :
      (o : ℤ) (q : Oid) (m : M) (x : Option M) (cs : Children M) (r : ℤ) (p : Oid)
      → at p (insert q m (elim (child o cs) [ none ↦ empty_node | some n ↦ n ])) ≡ (
          if oid_eq q p
          then some m
          else at p (elim (child o cs) [ none ↦ empty_node | some n ↦ n ]))
      → at (r ∷ p) (insert (o ∷ q) m (node x cs))
        ≡ (if oid_eq (o ∷ q) (r ∷ p) then some m else at (r ∷ p) (node x cs))
  unfolding insert
  below-insert o q m x cs r p ih =
      at-cons r p x (update_child (insert q m) o cs)
      ∙ rw (child-update_child (insert q m) o r cs, at-cons r p x cs, oid_eq-cons o r q p)
          (elim (Bool-cases (int_eq o r)) [
            | inl same ↦
                rw (same, ← (int_eq_iff o r).0 same)
                  (unfold below in ih ∙ rw (at_default p (child o cs)) (unfold below in refl))
            | inr other ↦ rw other refl
          ])

  -- An insertion changes the metric at its own path, and no other.
  pub at-insert :
      (q : Oid) (m : M) (n : MetricNode M) (p : Oid)
      → at p (insert q m n) ≡ (if oid_eq q p then some m else at p n)
  at-insert [] m (node x cs) [] = unfold at insert oid_eq in refl
  at-insert [] m (node x cs) (o ∷ p) = unfold at insert oid_eq in refl
  at-insert (o ∷ q) m (node x cs) [] = unfold at insert oid_eq in refl
  at-insert (o ∷ q) m (node x cs) (r ∷ p) =
      below-insert o q m x cs r p
        (at-insert q m (elim (child o cs) [ none ↦ empty_node | some n ↦ n ]) p)

  -- The last metric of a list with the given OID.
  pub last_with : (M → Bytes) → List M → Oid → Option M → Option M
  last_with oid_of [] p earlier = earlier
  last_with oid_of (m ∷ ms) p earlier =
      last_with oid_of ms p (if oid_eq (oid_to_list (oid_of m)) p then some m else earlier)

  at-insert_all :
      (oid_of : M → Bytes) (ms : List M) (n : MetricNode M) (p : Oid)
      → at p (insert_all oid_of ms n) ≡ last_with oid_of ms p (at p n)
  unfolding insert_all last_with
  at-insert_all oid_of [] n p = refl
  at-insert_all oid_of (m ∷ ms) n p =
      at-insert_all oid_of ms _ p
      ∙ ap (last_with oid_of ms p) (at-insert (oid_to_list (oid_of m)) m n p)

  -- The tree holds, at every path, the last of the metrics with that OID, and nothing else.
  pub at-build_metric_tree :
      (oid_of : M → Bytes) (ms : List M) (p : Oid)
      → at p (build_metric_tree oid_of ms) ≡ last_with oid_of ms p none
  unfolding build_metric_tree
  at-build_metric_tree oid_of ms p =
      at-insert_all oid_of ms empty_node p ∙ ap (last_with oid_of ms p) (at_empty p)

  -- The shortest part of one or more oids from the front that has a metric, and the oids behind it.
  pub shortest : (Oid → Option M) → Oid → Option (M × Oid)
  shortest f [] = none
  shortest f (o ∷ oid) = elim (f (o ∷ [])) [
    | some m ↦ some (m, oid)
    | none ↦ shortest (λ p. f (o ∷ p)) oid
  ]

  shortest-none :
      (f : Oid → Option M) (oid : Oid) → ((p : Oid) → f p ≡ none) → shortest f oid ≡ none
  unfolding shortest
  shortest-none f [] h = refl
  shortest-none f (o ∷ oid) h =
      rw (h (o ∷ []), shortest) (shortest-none (λ p. f (o ∷ p)) oid (λ p. h (o ∷ p)))

  metric-at : (n : MetricNode M) → metric n ≡ at [] n
  unfolding at
  metric-at (node x cs) = refl

  abbrev choose : Option M → Oid → Option (M × Oid) → Option (M × Oid)
  choose none oid later = later
  choose (some m) oid later = some (m, oid)

  shortest-cons :
      (f : Oid → Option M) (o : ℤ) (oid : Oid)
      → shortest f (o ∷ oid) ≡ choose (f (o ∷ [])) oid (shortest (λ p. f (o ∷ p)) oid)
  unfolding shortest
  shortest-cons f o oid = elim (Option-cases (f (o ∷ []))) [
    | inl e ↦ rw (e, shortest) refl
    | inr (m, e) ↦ rw (e, shortest) refl
  ]

  find-cons :
      (o : ℤ) (oid : Oid) (x : Option M) (cs : Children M) {n : MetricNode M}
      → child o cs ≡ some n
      → find (o ∷ oid) (node x cs) ≡ choose (metric n) oid (find oid n)
  unfolding find
  find-cons o oid x cs {n} e = elim (Option-cases (metric n)) [
    | inl f ↦ rw (e, find, f) refl
    | inr (m, f) ↦ rw (e, find, f) refl
  ]

  at-child :
      (o : ℤ) (x : Option M) (cs : Children M) (c : Option (MetricNode M))
      → child o cs ≡ c
      → (p : Oid) → below p c ≡ at (o ∷ p) (node x cs)
  at-child o x cs c e p = sym (at-cons o p x cs ∙ ap (below p) e)

  find-child :
      (o : ℤ) (oid : Oid) (x : Option M) (cs : Children M)
      → ((n : MetricNode M) → find oid n ≡ shortest (λ p. at p n) oid)
      → find (o ∷ oid) (node x cs) ≡ shortest (λ p. at p (node x cs)) (o ∷ oid)
  unfolding below
  find-child o oid x cs ih = elim (Option-cases (child o cs)) [
    | inl missing ↦
        let gone = at-child o x cs none missing in
        unfold find in
        rw (missing, find)
          (sym (
            shortest-cons (λ p. at p (node x cs)) o oid
            ∙ rw (← gone []) (shortest-none (λ p. at (o ∷ p) (node x cs)) oid (λ p. sym (gone p)))))
    | inr (n, e) ↦
        let same = at-child o x cs (some n) e in
        find-cons o oid x cs e
        ∙ ap₂ (λ a b. choose a oid b) (metric-at n ∙ same [])
            (ih n ∙ ap (λ f. shortest f oid) (fun_ext same))
        ∙ sym (shortest-cons (λ p. at p (node x cs)) o oid)
  ]

  find-shortest-at : (oid : Oid) (n : MetricNode M) → find oid n ≡ shortest (λ p. at p n) oid
  find-shortest-at [] n = unfold find shortest in refl
  find-shortest-at (o ∷ oid) (node x cs) = find-child o oid x cs (λ n. find-shortest-at oid n)

  -- The search finds the metric with the shortest OID that the variable's OID begins with, the last
  -- one where several metrics have that OID, and hands on the oids behind it; it finds none exactly
  -- where no metric's OID is one or more oids from the front.
  pub find-build_metric_tree :
      (oid_of : M → Bytes) (ms : List M) (oid : Oid)
      → find oid (build_metric_tree oid_of ms) ≡ shortest (λ p. last_with oid_of ms p none) oid
  find-build_metric_tree oid_of ms oid =
      find-shortest-at oid (build_metric_tree oid_of ms)
      ∙ ap (λ f. shortest f oid) (fun_ext (at-build_metric_tree oid_of ms))
