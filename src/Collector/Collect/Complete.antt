-- ===== src/Collector/Collect/Complete.antt =====
-- No variable is left out by `collect`.
use snmp_exporter.Common.{
  ◌≡◌, sym, ap, ◌∙◌, Bool, List, [], ◌∷◌, ◌++◌, some, none, >>=-eq-some, Bool-cases, inl, inr,
  append_assoc,
}
use mathlib.Core.Option.{some-injective}
use snmp_exporter.Common.Text.{Bytes, equal, equal_iff}
use snmp_exporter.Common.Map.{lookup}
use snmp_exporter.Collector.Oid.{Oid, oid_to_list}
use snmp_exporter.Collector.Pdu.{Pdu, Host}
use snmp_exporter.Collector.MetricTree.{MetricNode, find, build_metric_tree}
use snmp_exporter.Collector.MetricTree.Laws.{shortest, last_with, find-build_metric_tree}
use snmp_exporter.Collector.Labels.{OidToPdu}
use snmp_exporter.Collector.Sample.{Metric, Sample, pdu_to_samples}
use snmp_exporter.Collector.Collect.{index_pdus, matched_samples, all_samples, module_samples}

-- The samples stand together in the list.
pub record Within {ℓ} {A : Type ℓ} (part whole : List A) : Type ℓ where
  pub before : List A
  pub after : List A
  pub split : whole ≡ before ++ (part ++ after)

module _ {F32 F64 : Type 0} (host : Host F32 F64) (wrap_counters : Bool) where
  all_samples-Within :
      (m : OidToPdu host wrap_counters) (tree : MetricNode (Metric F64))
      → (entries : List (Bytes × Pdu F32 F64)) (samples part : List (Sample F64)) (oid : Bytes)
      → (pdu : Pdu F32 F64) → all_samples host wrap_counters m tree entries ≡ some samples
      → lookup oid entries ≡ some pdu
      → matched_samples host wrap_counters m pdu (find (oid_to_list oid) tree) ≡ some part
      → Within part samples
  unfolding all_samples lookup
  all_samples-Within m tree [] samples part oid pdu e l p = cc
  all_samples-Within m tree ((o, x) ∷ entries) samples part oid pdu e l p =
      let (first, ef, e1) =
        >>=-eq-some (matched_samples host wrap_counters m x (find (oid_to_list o) tree)) _ e in
      let (rest, er, e2) = >>=-eq-some (all_samples host wrap_counters m tree entries) _ e1 in
      let whole : first ++ rest ≡ samples = some-injective _ samples e2 in
      elim (Bool-cases (equal o oid)) [
        | inl same ↦
            let same_oid : o ≡ oid = (equal_iff o oid).0 same in
            let same_pdu : x ≡ pdu = some-injective x pdu (rw same at l) in
            let same_part : first ≡ part = some-injective first part (
              sym ef
              ∙ (ap (λ k. matched_samples host wrap_counters m x (find (oid_to_list k) tree))
                    same_oid
                  ∙ (ap (λ y. matched_samples host wrap_counters m y (find (oid_to_list oid) tree))
                        same_pdu
                      ∙ p))) in
            record { before = []; after = rest; split = sym whole ∙ ap (λ f. f ++ rest) same_part }
        | inr other ↦
            let w = all_samples-Within m tree entries rest part oid pdu er (rw other at l) p in
            record {
              before = first ++ w.before;
              after = w.after;
              split =
                  sym whole ∙ (ap (λ r. first ++ r) w.split ∙ sym (append_assoc first w.before _));
            }
      ]

  -- The samples of a variable that the scrape has returned, of the metric with the shortest OID that
  -- its OID begins with and the oids behind that, are among the samples of the module.
  pub module_samples-Within :
      (metrics : List (Metric F64)) (pdus : List (Pdu F32 F64)) (m : OidToPdu host wrap_counters)
      → (oid : Bytes) (pdu : Pdu F32 F64) (metric : Metric F64) (oids : Oid)
      → (samples part : List (Sample F64)) → index_pdus host wrap_counters pdus [] ≡ some m
      → lookup oid m ≡ some pdu
      → shortest (λ p. last_with (λ x. x.oid) metrics p none) (oid_to_list oid)
        ≡ some (metric, oids)
      → pdu_to_samples host wrap_counters m oids pdu metric ≡ some part
      → module_samples host wrap_counters metrics pdus ≡ some samples
      → Within part samples
  unfolding module_samples
  module_samples-Within metrics pdus m oid pdu metric oids samples part em l f p e =
      let found = find-build_metric_tree (λ x. x.oid) metrics (oid_to_list oid) ∙ f in
      all_samples-Within m (build_metric_tree (λ x. x.oid) metrics) m samples part oid pdu
        (rw em at e) l (rw found (unfold matched_samples in p))
