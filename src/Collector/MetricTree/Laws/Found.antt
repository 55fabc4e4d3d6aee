-- ===== src/Collector/MetricTree/Laws/Found.antt =====
-- What holds of every configured metric holds of the one that the search finds.
use snmp_exporter.Common.{
  ◌≡◌, List, [], ◌∷◌, Option, some, none, All, if_ind, Option-cases, inl, inr, ◌∙◌, sym,
}
use mathlib.Core.Path.{subst}
use snmp_exporter.Common.Text.{Bytes}
use snmp_exporter.Collector.Oid.{Oid, oid_to_list}
use snmp_exporter.Collector.MetricTree.{find, build_metric_tree}
use snmp_exporter.Collector.MetricTree.Laws.{oid_eq, last_with, shortest, find-build_metric_tree}

module _ {κ} {M : Type 0} (P : M → Type κ) where
  abbrev IfSome : Option M → Type κ
  IfSome none = Unit
  IfSome (some m) = P m

  abbrev IfFound : Option (M × Oid) → Type κ
  IfFound none = Unit
  IfFound (some (m, oids)) = P m

  last_with-IfSome :
      (oid_of : M → Bytes) (ms : List M) (p : Oid) (earlier : Option M)
      → All P ms
      → IfSome earlier
      → IfSome (last_with oid_of ms p earlier)
  unfolding last_with
  last_with-IfSome oid_of [] p earlier h e = e
  last_with-IfSome oid_of (m ∷ ms) p earlier (pm, h) e =
      last_with-IfSome oid_of ms p _ h
        (if_ind IfSome (oid_eq (oid_to_list (oid_of m)) p) {x = some m} {y = earlier} pm e)

  shortest-IfFound :
      (f : Oid → Option M) (oid : Oid) → ((p : Oid) → IfSome (f p)) → IfFound (shortest f oid)
  unfolding shortest
  shortest-IfFound f [] h = tt
  shortest-IfFound f (o ∷ oid) h = elim (Option-cases (f (o ∷ []))) [
    | inl e ↦ rw (e, IfFound, shortest) (shortest-IfFound (λ p. f (o ∷ p)) oid (λ p. h (o ∷ p)))
    | inr (m, e) ↦ rw (e, IfFound, shortest) (subst IfSome e (h (o ∷ [])))
  ]

  pub find-All :
      (oid_of : M → Bytes) (ms : List M) (oid : Oid) {m : M} {oids : Oid}
      → All P ms
      → find oid (build_metric_tree oid_of ms) ≡ some (m, oids)
      → P m
  find-All oid_of ms oid h e =
      subst IfFound (sym (find-build_metric_tree oid_of ms oid) ∙ e)
        (shortest-IfFound _ oid (λ p. last_with-IfSome oid_of ms p none h tt))
