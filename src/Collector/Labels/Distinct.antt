-- ===== src/Collector/Labels/Distinct.antt =====
-- The names of the labels that `indexesToLabels` makes.
use snmp_exporter.Common.{◌≡◌, Bool, List, [], ◌∷◌, Option, some, none, >>=-eq-some}
use mathlib.Core.Path.{subst}
use snmp_exporter.Collector.Index.{index_oids_as_string}
use snmp_exporter.Common.Text.{Bytes}
use snmp_exporter.Common.Map.{Distinct, insert-Distinct, delete-Distinct}
use snmp_exporter.Collector.Oid.{Oid}
use snmp_exporter.Collector.Pdu.{Pdu, Host}
use snmp_exporter.Collector.Labels.{
  IndexConfig, Lookup, Labels, OidToPdu, read_indexes, found_lookup, look_at, look_up, do_lookups,
  lookup_type, lookup_text, indexes_to_labels,
}

abbrev Keyed : Option Labels → Type 0
Keyed none = Unit
Keyed (some s) = Distinct s.labels

abbrev KeyedPairs : Option (List (Bytes × Bytes)) → Type 0
KeyedPairs none = Unit
KeyedPairs (some labels) = Distinct labels

read_indexes-Distinct :
    (oids : Oid) (indexes : List IndexConfig) (s s' : Labels)
    → read_indexes oids indexes s ≡ some s'
    → Distinct s.labels
    → Distinct s'.labels
unfolding read_indexes
read_indexes-Distinct oids [] s s' e d = subst Keyed e d
read_indexes-Distinct oids (index ∷ indexes) s s' e d =
    let (i, ei, e1) = >>=-eq-some (index_oids_as_string oids index.type_ _ _ _) _ e in
    read_indexes-Distinct i.remaining indexes _ s' e1 (insert-Distinct index.labelname _ s.labels d)

module _ {F32 F64 : Type 0} (host : Host F32 F64) (wrap_counters : Bool) where
  module _ (oid_to_pdu : OidToPdu host wrap_counters) where
    look_at-Distinct :
        (l : Lookup) (s : Labels) (pdu : Option (Pdu F32 F64)) (s' : Labels)
        → look_at host wrap_counters oid_to_pdu l s pdu ≡ some s'
        → Distinct s.labels
        → Distinct s'.labels
    unfolding look_at found_lookup
    look_at-Distinct l s none s' e d = subst Keyed e (insert-Distinct l.labelname [] s.labels d)
    look_at-Distinct l s (some pdu) s' e d =
        let (t, et, e1) =
          >>=-eq-some (lookup_type host wrap_counters oid_to_pdu s.label_oids l) _ e in
        let (str, es, e2) = >>=-eq-some (lookup_text host wrap_counters t l pdu) _ e1 in
        subst Keyed e2 (insert-Distinct l.labelname str s.labels d)

    look_up-Distinct :
        (l : Lookup) (s : Labels) (labels : List Bytes) (s' : Labels)
        → look_up host wrap_counters oid_to_pdu l s labels ≡ some s'
        → Distinct s.labels
        → Distinct s'.labels
    unfolding look_up
    look_up-Distinct l s [] s' e d = subst Keyed e (delete-Distinct l.labelname s.labels d)
    look_up-Distinct l s (label ∷ labels) s' e d = look_at-Distinct l s _ s' e d

    do_lookups-Distinct :
        (ls : List Lookup) (s s' : Labels)
        → do_lookups host wrap_counters oid_to_pdu ls s ≡ some s'
        → Distinct s.labels
        → Distinct s'.labels
    unfolding do_lookups
    do_lookups-Distinct [] s s' e d = subst Keyed e d
    do_lookups-Distinct (l ∷ ls) s s' e d =
        let (t, et, e1) = >>=-eq-some (look_up host wrap_counters oid_to_pdu l s l.labels) _ e in
        do_lookups-Distinct ls t s' e1 (look_up-Distinct l s l.labels t et d)

    -- The names of the labels of a row are distinct.
    pub indexes_to_labels-Distinct :
        (oids : Oid) (indexes : List IndexConfig) (lookups : List Lookup)
        → (labels : List (Bytes × Bytes))
        → indexes_to_labels host wrap_counters oids indexes lookups oid_to_pdu ≡ some labels
        → Distinct labels
    unfolding indexes_to_labels
    indexes_to_labels-Distinct oids indexes lookups labels e =
        let start : Labels = record { labels = []; label_oids = [] } in
        let (s, er, e1) = >>=-eq-some (read_indexes oids indexes start) _ e in
        let (s', el, e2) = >>=-eq-some (do_lookups host wrap_counters oid_to_pdu lookups s) _ e1 in
        let d = read_indexes-Distinct oids indexes start s er (unfold Distinct in tt) in
        subst KeyedPairs e2 (do_lookups-Distinct lookups s s' el d)
