-- ===== src/Generator/Walks.antt =====
-- The start of `generateConfigModule` in generator/tree.go: the types that the configuration
-- overrides, and the top-level nodes of what is to be walked.
use snmp_exporter.Common.{
  not, List, [], ◌∷◌, ◌++◌, any, drop, length, keep, ◌==◌, if◌then◌else◌, Option, some, none,
}
use snmp_exporter.Common.Text.{Bytes, equal, contains, has_prefix, text}
use snmp_exporter.Common.Map.{lookup, insert}
use snmp_exporter.Generator.Minimize.{leb_text, minimize_oids}
use snmp_exporter.Generator.Tree.{
  NodeInfo, Node, OidMetricType, oid_not_found, oid_scalar, oid_instance, oid_subtree,
  get_metric_node,
}
use snmp_exporter.Generator.Store.{Store, write, NameMap}
use snmp_exporter.Generator.ModuleConfig.{MetricOverrides}
use snmp_exporter.Generator.Result.{Result, ok, failed, invalid_oid, cannot_find_oid, ◌>>=◌}

-- `needToWalk`: a set, of which the order does not matter since `minimizeOids` sorts it.
unfoldable pub add_oid : Bytes → List Bytes → List Bytes
add_oid oid oids = if contains oids oid then oids else oid ∷ oids

abbrev pub delete_oid : Bytes → List Bytes → List Bytes
delete_oid oid = keep (λ k. not (equal k oid))

module _ {F64 : Type 0} where
  -- The loop over `cfg.Overrides`.
  unfoldable pub override_types : NameMap → List (Bytes × MetricOverrides F64) → Store → Store
  override_types names [] s = s
  override_types names ((name, params) ∷ overrides) s =
      let rest = override_types names overrides in
      if equal params.typ [] then rest s else (elim (lookup name names) [
        | none ↦ rest s
        | some a ↦ rest (write a (record (s a) { typ = params.typ }) s)
      ])

module _ (name_to_node : Bytes → Option NodeInfo) where
  -- The OID of a name, where it is one.
  unfoldable pub resolve : Bytes → Bytes
  resolve oid = elim (name_to_node oid) [ some n ↦ n.oid | none ↦ oid ]

  unfoldable pub resolve_walks : List Bytes → Result (List Bytes)
  unfolding resolve
  resolve_walks [] = ok []
  resolve_walks (oid ∷ oids) =
      if has_prefix oid (text ".")
      then failed (invalid_oid oid)
      else do rest ← resolve_walks oids; ok (resolve oid ∷ rest)

-- `strings.Replace(s, old, "", 1)`.
unfoldable pub cut_first : Bytes → Bytes → Bytes
cut_first old [] = []
cut_first old (c ∷ s) =
    let rest = cut_first old s in
    if has_prefix (c ∷ s) old then drop (length old) (c ∷ s) else c ∷ rest

-- With `tableInstances` and `metricNodes`.
pub record Tops : Type 0 where
  pub need_to_walk : List Bytes
  pub table_instances : List (Bytes × List Bytes)
  pub metric_nodes : List NodeInfo

abbrev pub instances : Bytes → List (Bytes × List Bytes) → List Bytes
instances oid m = elim (lookup oid m) [ some l ↦ l | none ↦ [] ]

-- The set has nodes by their address.
unfoldable pub add_node : NodeInfo → List NodeInfo → List NodeInfo
add_node n nodes = if any (λ m. m.address == n.address) nodes then nodes else n ∷ nodes

-- What `getMetricNode` found for an OID.
unfoldable pub add_top : Bytes → Option NodeInfo × OidMetricType → Tops → Result Tops
unfolding add_oid add_node cut_first
add_top oid (none, t) s = failed (cannot_find_oid oid)
add_top oid (some n, oid_not_found) s = failed (cannot_find_oid oid)
add_top oid (some n, oid_subtree) s = ok (record s {
  need_to_walk = add_oid oid s.need_to_walk;
  metric_nodes = add_node n s.metric_nodes;
})
add_top oid (some n, oid_instance) s = ok (record {
  need_to_walk = add_oid (oid ++ text ".") s.need_to_walk;
  table_instances =
      insert n.oid (instances n.oid s.table_instances ++ cut_first n.oid oid ∷ [])
        s.table_instances;
  metric_nodes = add_node n s.metric_nodes;
})
add_top oid (some n, oid_scalar) s = ok (record s {
  need_to_walk = add_oid (oid ++ text ".0.") s.need_to_walk;
  metric_nodes = add_node n s.metric_nodes;
})

unfoldable pub find_tops : Node → (Bytes → Option NodeInfo) → List Bytes → Tops → Result Tops
unfolding add_top
find_tops tree name_to_node [] s = ok s
find_tops tree name_to_node (oid ∷ oids) s = do
  t ← add_top oid (get_metric_node oid tree name_to_node) s
  find_tops tree name_to_node oids t

unfoldable pub insert_by_oid : NodeInfo → List NodeInfo → List NodeInfo
insert_by_oid n [] = n ∷ []
insert_by_oid n (m ∷ l) = if leb_text n.oid m.oid then n ∷ m ∷ l else m ∷ insert_by_oid n l

-- `sort.Slice(metrics, ...)`; the order of nodes with the same OID is not fixed.
unfoldable pub sort_by_oid : List NodeInfo → List NodeInfo
unfolding insert_by_oid
sort_by_oid [] = []
sort_by_oid (n ∷ l) = insert_by_oid n (sort_by_oid l)

-- All of this from the names to be walked, with the nodes sorted.
unfoldable pub top_nodes : Node → (Bytes → Option NodeInfo) → List Bytes → Result Tops
unfolding resolve_walks find_tops sort_by_oid
top_nodes tree name_to_node walk = do
  oids ← resolve_walks name_to_node walk
  s ←
      find_tops tree name_to_node (minimize_oids oids)
        (record { need_to_walk = []; table_instances = []; metric_nodes = [] })
  ok (record s { metric_nodes = sort_by_oid s.metric_nodes })
