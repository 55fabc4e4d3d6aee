-- ===== src/Generator/Module/CleanLookups.antt =====
-- The label names of the lookups that `generateConfigModule` in generator/tree.go makes.
use snmp_exporter.Common.{
  ℕ, zero, suc, ◌-◌, ◌≡◌, sym, true, List, [], ◌∷◌, map, arith, if◌then◌else◌, All, All-append,
}
use mathlib.Core.Path.{subst}
use snmp_exporter.Common.Text.{Bytes}
use snmp_exporter.Common.Utf8.{rune_width}
use snmp_exporter.Collector.Labels.{Lookup}
use snmp_exporter.Collector.Sample.{Metric}
use snmp_exporter.Generator.Tree.{NodeInfo}
use snmp_exporter.Generator.Store.{Store, NameMap}
use snmp_exporter.Generator.ModuleConfig.{SourceLookup}
use snmp_exporter.Generator.Indexes.{is_label_char, sanitize_from, sanitize_label_name}
use snmp_exporter.Generator.Lookups.{
  Looking, with_lookup, lookup_config, lookup_metrics, apply_lookups, dropping,
}
use snmp_exporter.Generator.Lookups.Rounds.{apply_lookups-ind}
use snmp_exporter.Generator.Result.{ok, >>=-eq-ok, ok-injective}

-- Letters, digits and underscores.
abbrev pub IsClean : Bytes → Type 0
IsClean = All (λ c. is_label_char c ≡ true)

abbrev pub IsCleanLookup : Lookup → Type 0
IsCleanLookup l = IsClean l.labelname × All IsClean l.labels

abbrev pub IsCleanMetric : {F64 : Type 0} → Metric F64 → Type 0
IsCleanMetric m = All (λ i. IsClean i.labelname) m.indexes × All IsCleanLookup m.lookups

abbrev pub HasCleanLookups : {F64 : Type 0} → Metric F64 → Type 0
HasCleanLookups m = All IsCleanLookup m.lookups

underscored : (c : ℕ) → is_label_char (if is_label_char c then c else b'_') ≡ true
unfolding is_label_char
underscored c = ground arith

sanitize_from-IsClean : (skip : ℕ) (s : Bytes) → IsClean (sanitize_from skip s)
unfolding sanitize_from
sanitize_from-IsClean zero [] = tt
sanitize_from-IsClean (suc skip) [] = tt
sanitize_from-IsClean (suc skip) (c ∷ s) = sanitize_from-IsClean skip s
sanitize_from-IsClean zero (c ∷ s) =
    (underscored c, sanitize_from-IsClean (rune_width (c ∷ s) - 1) s)

pub sanitize_label_name-IsClean : (name : Bytes) → IsClean (sanitize_label_name name)
unfolding sanitize_label_name
sanitize_label_name-IsClean name = sanitize_from-IsClean 0 name

map-sanitize-IsClean : (l : List Bytes) → All IsClean (map sanitize_label_name l)
map-sanitize-IsClean [] = tt
map-sanitize-IsClean (x ∷ l) = (sanitize_label_name-IsClean x, map-sanitize-IsClean l)

map-dropping-IsCleanLookup : (l : List Bytes) → All IsCleanLookup (map dropping l)
map-dropping-IsCleanLookup [] = tt
map-dropping-IsCleanLookup (x ∷ l) =
    ((sanitize_label_name-IsClean x, tt), map-dropping-IsCleanLookup l)

module _ {F64 : Type 0} (names : NameMap) (s : Store)
    (table_instances filters : List (Bytes × List Bytes)) (required : List Bytes) where
  with_lookup-HasCleanLookups :
      (l : SourceLookup) (n : NodeInfo) (t : Bytes) (k : Looking F64)
      → HasCleanLookups k.metric
      → HasCleanLookups (with_lookup names s table_instances filters required l n t k).metric
  unfolding with_lookup lookup_config
  with_lookup-HasCleanLookups l n t k h =
      All-append IsCleanLookup k.metric.lookups _ h
        ((sanitize_label_name-IsClean n.label, map-sanitize-IsClean l.source_indexes), tt)

  pub lookup_metrics-HasCleanLookups :
      (ls : List SourceLookup) (ms : List (Metric F64)) (oids : List Bytes)
      {u : List (Metric F64) × List Bytes}
      → lookup_metrics names s table_instances filters required ls ms oids ≡ ok u
      → All HasCleanLookups ms
      → All HasCleanLookups u.0
  unfolding lookup_metrics
  lookup_metrics-HasCleanLookups ls [] oids {u} e h = rw (sym (ok-injective ([], oids) u e)) tt
  lookup_metrics-HasCleanLookups ls (m ∷ ms) oids {u} e (h, hs) =
      let k : Looking F64 = record { metric = m; need_to_walk = oids; to_delete = [] } in
      let (v, p, q) = >>=-eq-ok (apply_lookups names s table_instances filters required ls k) _ e in
      let (w, r, a) =
        >>=-eq-ok (lookup_metrics names s table_instances filters required ls ms v.need_to_walk) _
          q in
      let c =
        apply_lookups-ind names s table_instances filters required (λ u. HasCleanLookups u.metric)
          with_lookup-HasCleanLookups ls k p h in
      subst (λ u. All HasCleanLookups u.0) (ok-injective _ u a)
        (
          All-append IsCleanLookup v.metric.lookups _ c (map-dropping-IsCleanLookup v.to_delete),
          lookup_metrics-HasCleanLookups ls ms v.need_to_walk r hs,
        )
