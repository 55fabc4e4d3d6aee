-- ===== src/Generator/Lookups/Rounds.antt =====
-- What the loop over the lookups of a metric keeps, of `generateConfigModule` in generator/tree.go.
use snmp_exporter.Common.{◌≡◌, List, [], ◌∷◌, length, ◌==◌, Bool-cases, Option-cases, inl, inr}
use snmp_exporter.Common.Text.{Bytes}
use snmp_exporter.Common.Map.{has_key}
use snmp_exporter.Generator.Tree.{NodeInfo, metric_type}
use snmp_exporter.Generator.Store.{Store, NameMap}
use snmp_exporter.Generator.ModuleConfig.{SourceLookup}
use snmp_exporter.Generator.Lookups.{
  Looking, with_lookup, resolve_lookup, apply_lookups, get_index_node, try_lookup, count_found,
}
use snmp_exporter.Generator.Result.{ok, >>=-eq-ok, ok-injective}
use mathlib.Core.Path.{subst}

module _ {F64 : Type 0} (names : NameMap) (s : Store)
    (table_instances filters : List (Bytes × List Bytes)) (required : List Bytes) where
  resolve_lookup-ok :
      (l : SourceLookup) (k : Looking F64) {u : Looking F64}
      → resolve_lookup names s table_instances filters required l k ≡ ok u
      → (n : NodeInfo) × (t : Bytes) × (with_lookup names s table_instances filters required l n t k
          ≡ u)
  unfolding resolve_lookup
  resolve_lookup-ok l k e = elim (Bool-cases (has_key names l.lookup)) [
    | inl p ↦ elim (Option-cases (get_index_node l.lookup names s k.metric.oid)) [
      | inl q ↦ absurd (cc (rw (p, q) at e))
      | inr (n, q) ↦ elim (Option-cases (metric_type n.typ)) [
        | inl r ↦ absurd (cc (rw (p, q, r) at e))
        | inr (t, r) ↦ (n, t, ok-injective _ _ (rw (p, q, r) at e))
      ]
    ]
    | inr p ↦ absurd (cc (rw p at e))
  ]

  -- A property that a lookup keeps.
  module _ (R : Looking F64 → Type 0)
      (kept : (l : SourceLookup) (n : NodeInfo) (t : Bytes) (k : Looking F64)
        → R k
        → R (with_lookup names s table_instances filters required l n t k)) where
    try_lookup-ind :
        (l : SourceLookup) (k : Looking F64) {u : Looking F64}
        → try_lookup names s table_instances filters required l k ≡ ok u
        → R k
        → R u
    unfolding try_lookup
    try_lookup-ind l k {u} e r =
        elim (Bool-cases
          (count_found k.metric.indexes l.source_indexes == length l.source_indexes)) [
            | inl p ↦
                let (n, t, q) = resolve_lookup-ok l k (rw p at e) in subst R q (kept l n t k r)
            | inr p ↦ subst R (ok-injective k u (rw p at e)) r
          ]

    pub apply_lookups-ind :
        (ls : List SourceLookup) (k : Looking F64) {u : Looking F64}
        → apply_lookups names s table_instances filters required ls k ≡ ok u
        → R k
        → R u
    unfolding apply_lookups
    apply_lookups-ind [] k {u} e r = subst R (ok-injective k u e) r
    apply_lookups-ind (l ∷ ls) k {u} e r =
        let (v, p, q) =
          >>=-eq-ok (try_lookup names s table_instances filters required l k)
            (apply_lookups names s table_instances filters required ls) e in
        apply_lookups-ind ls v q (try_lookup-ind l k p r)
