-- ===== src/Generator/Module/Instances.antt =====
-- The instances of a table that a module asks for, of `generateConfigModule` in generator/tree.go.
use snmp_exporter.Common.{
  ◌≡◌, refl, sym, Bool, true, not, ◌&&◌, ◌||◌, if◌then◌else◌, ◌==◌, List, [], ◌∷◌, ◌++◌, arith,
  Option, some, none, drop, length, All, All-append, if_ind,
}
use mathlib.Core.Path.{subst}
use snmp_exporter.Common.Text.{Bytes, equal, has_prefix}
use snmp_exporter.Common.Map.{lookup, insert, lookup-insert}
use snmp_exporter.Generator.Minimize.{dotted}
use snmp_exporter.Generator.Tree.{
  NodeInfo, Node, Nodes, OidMetricType, oid_not_found, oid_scalar, oid_instance, oid_subtree,
  covers, get_metric_node, search_node_tree, is_metric, is_empty,
}
use snmp_exporter.Generator.Tree.Search.{
  Deepest, DeepestIn, here, below, first, later, search_node_tree-Deepest,
}
use snmp_exporter.Generator.Walks.{
  Tops, instances, cut_first, add_top, find_tops, top_nodes, resolve_walks,
}
use snmp_exporter.Generator.Minimize.{minimize_oids}
use snmp_exporter.Generator.Result.{ok, >>=-eq-ok, ok-injective}

-- The text goes on with a component of its own behind an OID.
abbrev pub is_index : Bytes → Bool
is_index [] = true
is_index (c ∷ s) = c == b'.'

abbrev pub AllIndexes : List Bytes → Type 0
AllIndexes = All (λ i. is_index i ≡ true)

drop-is_index :
    (p oid : Bytes)
    → has_prefix (dotted oid) (dotted p) ≡ true
    → (has_prefix oid p ≡ true) × (is_index (drop (length p) oid) ≡ true)
unfolding has_prefix
drop-is_index [] [] h = (refl, refl)
drop-is_index [] (d ∷ s) h = (refl, ground arith)
drop-is_index (c ∷ []) [] h = absurd (ground arith)
drop-is_index (c ∷ d ∷ p) [] h = absurd (ground arith)
drop-is_index (c ∷ p) (d ∷ s) h = let (a, b) = drop-is_index p s (ground arith) in (ground arith, b)

cut_first-is_index :
    (p oid : Bytes) → has_prefix (dotted oid) (dotted p) ≡ true → is_index (cut_first p oid) ≡ true
unfolding cut_first
cut_first-is_index p [] h = refl
cut_first-is_index p (c ∷ s) h = let (a, b) = drop-is_index p (c ∷ s) h in rw a b

mutual
  Deepest-covers : (oid : Bytes) (i : NodeInfo) {n : Node} → Deepest oid i n → covers oid i ≡ true
  Deepest-covers oid i (here c k) = c
  Deepest-covers oid i (below c d) = DeepestIn-covers oid i d

  DeepestIn-covers :
      (oid : Bytes) (i : NodeInfo) → {ns : Nodes} → DeepestIn oid i ns → covers oid i ≡ true
  DeepestIn-covers oid i (first d) = Deepest-covers oid i d
  DeepestIn-covers oid i (later c d) = DeepestIn-covers oid i d

-- An instance that was found is in the subtree of its node.
abbrev Fits : Bytes → Option NodeInfo × OidMetricType → Type 0
Fits oid (some n, oid_instance) = covers oid n ≡ true
Fits oid _ = Unit

instance-Fits :
    (oid : Bytes) (r : Option NodeInfo)
    → ((n : NodeInfo) → r ≡ some n → covers oid n ≡ true)
    → Fits oid (elim r [
      | none ↦ (none, oid_not_found)
      | some n ↦
          if not (is_metric n) || is_empty n.indexes
          then (none, oid_not_found)
          else (some n, oid_instance)
    ])
instance-Fits oid none h = tt
instance-Fits oid (some n) h =
    if_ind (Fits oid) (not (is_metric n) || is_empty n.indexes) tt (h n refl)

named-Fits :
    (oid : Bytes) (named : Option NodeInfo) (r : Option NodeInfo × OidMetricType)
    → Fits oid r
    → Fits oid (elim named [
      | some n ↦
          if is_metric n && is_empty n.indexes then (some n, oid_scalar) else (some n, oid_subtree)
      | none ↦ r
    ])
named-Fits oid none r h = h
named-Fits oid (some n) r h = if_ind (Fits oid) (is_metric n && is_empty n.indexes) tt tt

get_metric_node-Fits :
    (oid : Bytes) (tree : Node) (names : Bytes → Option NodeInfo)
    → Fits oid (get_metric_node oid tree names)
unfolding get_metric_node
get_metric_node-Fits oid tree names = named-Fits oid (names oid) _ (
    instance-Fits oid (search_node_tree oid tree)
      (λ n e. Deepest-covers oid n (search_node_tree-Deepest oid tree e)))

-- All instances, of each table.
abbrev pub Indexed : List (Bytes × List Bytes) → Type 0
Indexed m = (oid : Bytes) → AllIndexes (instances oid m)

insert-Indexed :
    (m : List (Bytes × List Bytes)) (oid : Bytes) (i : Bytes)
    → Indexed m
    → is_index i ≡ true
    → Indexed (insert oid (instances oid m ++ i ∷ []) m)
insert-Indexed m oid i h p k =
    let v = instances oid m ++ i ∷ [] in
    let P : Option (List Bytes) → Type 0 = λ o. AllIndexes (elim o [ some l ↦ l | none ↦ [] ]) in
    subst P (sym (lookup-insert oid k v m)) (
      if_ind P (equal oid k)
        (All-append (λ i. is_index i ≡ true) (instances oid m) (i ∷ []) (h oid) (p, tt)) (h k))

add_top-Indexed :
    (oid : Bytes) (found : Option NodeInfo × OidMetricType) (s : Tops) {u : Tops}
    → add_top oid found s ≡ ok u
    → Fits oid found
    → Indexed s.table_instances
    → Indexed u.table_instances
unfolding add_top
add_top-Indexed oid (none, t) s e f h = absurd cc
add_top-Indexed oid (some n, oid_not_found) s e f h = absurd cc
add_top-Indexed oid (some n, oid_subtree) s {u} e f h = rw (sym (ok-injective _ u e)) h
add_top-Indexed oid (some n, oid_scalar) s {u} e f h = rw (sym (ok-injective _ u e)) h
add_top-Indexed oid (some n, oid_instance) s {u} e f h =
    rw (sym (ok-injective _ u e))
      (insert-Indexed s.table_instances n.oid _ h (cut_first-is_index n.oid oid f))

module _ (tree : Node) (names : Bytes → Option NodeInfo) where
  find_tops-Indexed :
      (oids : List Bytes) (s : Tops) {u : Tops}
      → find_tops tree names oids s ≡ ok u
      → Indexed s.table_instances
      → Indexed u.table_instances
  unfolding find_tops
  find_tops-Indexed [] s {u} e h = rw (sym (ok-injective s u e)) h
  find_tops-Indexed (o ∷ oids) s e h =
      let (v, p, q) =
        >>=-eq-ok (add_top o (get_metric_node o tree names) s) (find_tops tree names oids) e in
      find_tops-Indexed oids v q (add_top-Indexed o _ s p (get_metric_node-Fits o tree names) h)

  -- What a module has of each instance is a part of the OID from a dot on.
  pub top_nodes-Indexed :
      (walk : List Bytes) {u : Tops} → top_nodes tree names walk ≡ ok u → Indexed u.table_instances
  unfolding top_nodes lookup
  top_nodes-Indexed walk {u} e =
      let (oids, p, q) = >>=-eq-ok (resolve_walks names walk) _ e in
      let start : Tops = record { need_to_walk = []; table_instances = []; metric_nodes = [] } in
      let (s, a, b) = >>=-eq-ok (find_tops tree names (minimize_oids oids) start) _ q in
      rw (sym (ok-injective _ u b)) (find_tops-Indexed (minimize_oids oids) start a (λ oid. tt))
