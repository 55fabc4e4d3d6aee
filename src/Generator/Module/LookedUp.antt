-- ===== src/Generator/Module/LookedUp.antt =====
-- That a module fetches what its lookups look up, of `generateConfigModule` in generator/tree.go.
use snmp_exporter.Common.{◌≡◌, Bool, true, ◌||◌, List, [], any, All}
use snmp_exporter.Common.{◌⊎◌}
use snmp_exporter.Common.Text.{Bytes, equal}
use snmp_exporter.Collector.Labels.{Lookup}
use snmp_exporter.Generator.Minimize.Cover.{covers}
use snmp_exporter.Generator.Store.{Tree, Store}
use snmp_exporter.Generator.ModuleConfig.{ModuleConfig}
use snmp_exporter.Generator.Module.{Generated}
use snmp_exporter.Generator.Module.Kept.{Kept}
use snmp_exporter.Generator.Module.Fetched.{entries}

-- The lookup only drops a label, or an OID in the subtree of that of the lookup is in the list.
abbrev pub reached : List Bytes → Lookup → Bool
reached oids l = equal l.oid [] || any (λ k. covers k l.oid) oids

abbrev Reached : List Bytes → List Lookup → Type 0
Reached oids = All (λ l. reached oids l ≡ true)

-- The lookup only drops a label, or an entry covers an OID in the subtree of that of the lookup.
abbrev pub IsLookedUp : {F64 : Type 0} → Generated F64 → Lookup → Type 0
IsLookedUp g l =
    (l.oid ≡ []) ⊎ ((k : Bytes) × (covers k l.oid ≡ true) × (any (covers k) (entries g) ≡ true))
