-- ===== src/Generator/Module/Kept.antt =====
-- The set `needToWalk` in the lookups and the addresses of `generateConfigModule` in
-- generator/tree.go, without static filters.
use snmp_exporter.Common.{◌≡◌, sym, true, List, [], ◌∷◌, ◌++◌, arith, Option}
use snmp_exporter.Common.Text.{Bytes, equal_iff, contains, text}
use snmp_exporter.Common.Map.{lookup}
use snmp_exporter.Collector.Sample.{Metric}
use snmp_exporter.Generator.Tree.{NodeInfo}
use snmp_exporter.Generator.Store.{Store, NameMap}
use snmp_exporter.Generator.ModuleConfig.{SourceLookup}
use snmp_exporter.Generator.Walks.{add_oid, instances}
use snmp_exporter.Generator.Lookups.{
  Looking, add_instances, add_column, filter_metric, with_lookup, apply_lookups, lookup_metrics,
}
use snmp_exporter.Generator.Lookups.Rounds.{apply_lookups-ind}
use snmp_exporter.Generator.Addresses.{check_address, check_addresses}
use snmp_exporter.Collector.Oid.{get_prev_oid}
use snmp_exporter.Generator.Result.{ok, >>=-eq-ok, ok-injective}

-- Every OID of the first list is in the second.
abbrev pub Kept : List Bytes → List Bytes → Type 0
Kept before after = (oid : Bytes) → contains before oid ≡ true → contains after oid ≡ true

pub add_oid-Kept : (k : Bytes) (oids : List Bytes) → Kept oids (add_oid k oids)
unfolding add_oid
add_oid-Kept k oids oid h = ground arith

pub contains-add_oid : (k : Bytes) (oids : List Bytes) → contains (add_oid k oids) k ≡ true
unfolding add_oid
contains-add_oid k oids = ground (arith, equal_iff k k)

pub add_instances-Kept :
    (base : Bytes) (indices oids : List Bytes) → Kept oids (add_instances base indices oids)
unfolding add_instances
add_instances-Kept base [] oids oid h = h
add_instances-Kept base (i ∷ l) oids oid h =
    add_instances-Kept base l _ oid (add_oid-Kept (base ++ i ++ text ".") oids oid h)

pub add_column-Kept :
    (base : Bytes) (indices oids : List Bytes) → Kept oids (add_column base indices oids)
unfolding add_column
add_column-Kept base [] oids = add_oid-Kept base oids
add_column-Kept base (i ∷ l) oids = add_instances-Kept base (i ∷ l) oids

module _ {F64 : Type 0} (names : NameMap) (s : Store) (table_instances : List (Bytes × List Bytes))
    (required : List Bytes) where
  with_lookup-Kept :
      (l : SourceLookup) (n : NodeInfo) (t : Bytes) (k : Looking F64)
      → Kept k.need_to_walk (with_lookup names s table_instances [] required l n t k).need_to_walk
  unfolding with_lookup filter_metric lookup
  with_lookup-Kept l n t k =
      add_column-Kept n.oid (instances k.metric.oid table_instances) k.need_to_walk

  apply_lookups-Kept :
      (ls : List SourceLookup) (k : Looking F64) {u : Looking F64}
      → apply_lookups names s table_instances [] required ls k ≡ ok u
      → Kept k.need_to_walk u.need_to_walk
  apply_lookups-Kept ls k e oid h =
      apply_lookups-ind names s table_instances [] required
        (λ u. contains u.need_to_walk oid ≡ true) (λ l n t k. with_lookup-Kept l n t k oid) ls k e h

  pub lookup_metrics-Kept :
      (ls : List SourceLookup) (ms : List (Metric F64)) (oids : List Bytes)
      {u : List (Metric F64) × List Bytes}
      → lookup_metrics names s table_instances [] required ls ms oids ≡ ok u
      → Kept oids u.1
  unfolding lookup_metrics
  lookup_metrics-Kept ls [] oids {u} e oid h = rw (sym (ok-injective ([], oids) u e)) h
  lookup_metrics-Kept ls (m ∷ ms) oids {u} e oid h =
      let k : Looking F64 = record { metric = m; need_to_walk = oids; to_delete = [] } in
      let (v, p, q) = >>=-eq-ok (apply_lookups names s table_instances [] required ls k) _ e in
      let (w, r, a) =
        >>=-eq-ok (lookup_metrics names s table_instances [] required ls ms v.need_to_walk) _ q in
      rw (sym (ok-injective _ u a))
        (lookup_metrics-Kept ls ms v.need_to_walk r oid (apply_lookups-Kept ls k p oid h))

module _ {F64 : Type 0} (name_to_node : Bytes → Option NodeInfo)
    (table_instances : List (Bytes × List Bytes)) where
  check_address-Kept :
      (m : Metric F64) (oids : List Bytes)
      → Kept oids (check_address name_to_node table_instances m oids).1
  unfolding check_address
  check_address-Kept m oids oid h =
      ground
        (arith, add_column-Kept (get_prev_oid m.oid) (instances m.oid table_instances) oids oid)

  pub check_addresses-Kept :
      (ms : List (Metric F64)) (oids : List Bytes)
      → Kept oids (check_addresses name_to_node table_instances ms oids).1
  unfolding check_addresses
  check_addresses-Kept [] oids oid h = h
  check_addresses-Kept (m ∷ ms) oids oid h =
      check_addresses-Kept ms (check_address name_to_node table_instances m oids).1 oid
        (check_address-Kept m oids oid h)
