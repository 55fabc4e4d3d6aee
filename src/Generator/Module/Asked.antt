-- ===== src/Generator/Module/Asked.antt =====
-- What the top-level nodes of a module put into `needToWalk`, of `generateConfigModule` in
-- generator/tree.go.
use snmp_exporter.Common.{
  ◌≡◌, sym, Bool, true, ◌||◌, List, [], ◌∷◌, ◌++◌, arith, Option, some, none, Bool-cases, inl, inr,
}
use snmp_exporter.Common.Text.{Bytes, equal, equal_iff, contains, has_prefix, text}
use snmp_exporter.Generator.Tree.{
  NodeInfo, Node, OidMetricType, oid_not_found, oid_scalar, oid_instance, oid_subtree,
  get_metric_node,
}
use snmp_exporter.Generator.Walks.{Tops, add_top, find_tops, resolve, resolve_walks}
use snmp_exporter.Generator.Result.{ok, >>=-eq-ok, ok-injective}
use snmp_exporter.Generator.Module.Kept.{Kept, add_oid-Kept, contains-add_oid}

-- The OID itself, the instance of it, or its value as a scalar is in the list.
abbrev pub asked : List Bytes → Bytes → Bool
asked oids t = contains oids t || contains oids (t ++ text ".") || contains oids (t ++ text ".0.")

pub asked-Kept :
    (before after : List Bytes) (t : Bytes)
    → Kept before after
    → asked before t ≡ true
    → asked after t ≡ true
asked-Kept before after t k h = ground (arith, k t, k (t ++ text "."), k (t ++ text ".0."))

add_top-asked :
    (oid : Bytes) (found : Option NodeInfo × OidMetricType) (s : Tops) {u : Tops}
    → add_top oid found s ≡ ok u
    → Kept s.need_to_walk u.need_to_walk × (asked u.need_to_walk oid ≡ true)
unfolding add_top
add_top-asked oid (none, t) s e = absurd cc
add_top-asked oid (some n, oid_not_found) s e = absurd cc
add_top-asked oid (some n, oid_subtree) s {u} e =
    rw (sym (ok-injective _ u e))
      (add_oid-Kept oid s.need_to_walk, ground (arith, contains-add_oid oid s.need_to_walk))
add_top-asked oid (some n, oid_instance) s {u} e = rw (sym (ok-injective _ u e)) (
  add_oid-Kept (oid ++ text ".") s.need_to_walk,
  ground (arith, contains-add_oid (oid ++ text ".") s.need_to_walk),
)
add_top-asked oid (some n, oid_scalar) s {u} e = rw (sym (ok-injective _ u e)) (
  add_oid-Kept (oid ++ text ".0.") s.need_to_walk,
  ground (arith, contains-add_oid (oid ++ text ".0.") s.need_to_walk),
)

module _ (tree : Node) (name_to_node : Bytes → Option NodeInfo) where
  find_tops-Kept :
      (oids : List Bytes) (s : Tops) {u : Tops}
      → find_tops tree name_to_node oids s ≡ ok u
      → Kept s.need_to_walk u.need_to_walk
  unfolding find_tops
  find_tops-Kept [] s {u} e oid h = rw (sym (ok-injective s u e)) h
  find_tops-Kept (o ∷ oids) s {u} e oid h =
      let (v, p, q) =
        >>=-eq-ok (add_top o (get_metric_node o tree name_to_node) s)
          (find_tops tree name_to_node oids) e in
      find_tops-Kept oids v q oid ((add_top-asked o _ s p).0 oid h)

  pub find_tops-asked :
      (oids : List Bytes) (s : Tops) {u : Tops}
      → find_tops tree name_to_node oids s ≡ ok u
      → (t : Bytes) → contains oids t ≡ true
      → asked u.need_to_walk t ≡ true
  unfolding find_tops
  find_tops-asked [] s e t h = absurd cc
  find_tops-asked (o ∷ oids) s {u} e t h =
      let (v, p, q) =
        >>=-eq-ok (add_top o (get_metric_node o tree name_to_node) s)
          (find_tops tree name_to_node oids) e in
      elim (Bool-cases (equal t o)) [
        | inl r ↦
            asked-Kept v.need_to_walk u.need_to_walk t (find_tops-Kept oids v q)
              (rw ((equal_iff t o).0 r) (add_top-asked o _ s p).1)
        | inr r ↦ find_tops-asked oids v q t (rw r at h)
      ]

pub resolve_walks-contains :
    (name_to_node : Bytes → Option NodeInfo) (walk : List Bytes) {oids : List Bytes}
    → resolve_walks name_to_node walk ≡ ok oids
    → (oid : Bytes) → contains walk oid ≡ true
    → contains oids (resolve name_to_node oid) ≡ true
unfolding resolve_walks
resolve_walks-contains name_to_node [] e oid h = absurd cc
resolve_walks-contains name_to_node (o ∷ walk) {oids} e oid h =
    elim (Bool-cases (has_prefix o (text "."))) [
      | inl p ↦ absurd (cc (rw p at e))
      | inr p ↦
          let (rest, q, r) = >>=-eq-ok (resolve_walks name_to_node walk) _ (rw p at e) in
          rw (sym (ok-injective _ oids r)) (elim (Bool-cases (equal oid o)) [
            | inl a ↦
                rw ((equal_iff oid o).0 a)
                  (ground (arith, equal_iff (resolve name_to_node o) (resolve name_to_node o)))
            | inr a ↦ ground (arith, resolve_walks-contains name_to_node walk q oid (rw a at h))
          ])
    ]
