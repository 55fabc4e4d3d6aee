-- ===== src/Collector/Collect/Labelled.antt =====
-- The label names of everything that `collect` sends.
use snmp_exporter.Common.{
  ◌≡◌, refl, Bool, false, List, [], ◌∷◌, map, Option, some, none, >>=-eq-some, All, All-append, ℕ,
}
use mathlib.Core.Path.{subst}
use snmp_exporter.Common.Text.{Bytes}
use snmp_exporter.Collector.Oid.{Oid, oid_to_list}
use snmp_exporter.Collector.Pdu.{Pdu, Host}
use snmp_exporter.Collector.Options.{Callback}
use snmp_exporter.Collector.Scrape.{
  Request, Module, Device, Scrape, scraped, scrape_error, panic, out_of_fuel, scrape_target,
}
use snmp_exporter.Collector.MetricTree.{find, build_metric_tree}
use snmp_exporter.Collector.MetricTree.Laws.Found.{find-All}
use snmp_exporter.Collector.Labels.{OidToPdu}
use snmp_exporter.Collector.Sample.{Metric, Sample, shape_of}
use snmp_exporter.Collector.Sample.Distinct.{Labelled, adds_name, pdu_to_samples-Labelled}
use snmp_exporter.Collector.Collect.{
  Output, scrape_duration, sample, index_pdus, matched_samples, all_samples, module_samples,
  outputs, collect,
}

-- The metric's type is neither "EnumAsStateSet" nor "Bits".
abbrev pub IsPlain : {F64 : Type 0} → Metric F64 → Type 0
IsPlain m = adds_name (shape_of m.type_) ≡ false

abbrev Samples : {F64 : Type 0} → Option (List (Sample F64)) → Type 0
Samples none = Unit
Samples (some samples) = All Labelled samples

-- Samples are labelled; the outputs about the scrape itself have the label of the module.
abbrev pub OutputLabelled : {F64 : Type 0} → Output F64 → Type 0
OutputLabelled (sample s) = Labelled s
OutputLabelled _ = Unit

abbrev Outputs : {F64 : Type 0} → Option (List (Output F64)) → Type 0
Outputs none = Unit
Outputs (some os) = All OutputLabelled os

module _ {F32 F64 : Type 0} (host : Host F32 F64) (wrap_counters : Bool) where
  module _ (metrics : List (Metric F64)) (plain : All IsPlain metrics) where
    matched_samples-Labelled :
        (m : OidToPdu host wrap_counters) (pdu : Pdu F32 F64) (oid : Oid)
        → (found : Option (Metric F64 × Oid)) (samples : List (Sample F64))
        → find oid (build_metric_tree (λ x. x.oid) metrics) ≡ found
        → matched_samples host wrap_counters m pdu found ≡ some samples
        → All Labelled samples
    unfolding matched_samples
    matched_samples-Labelled m pdu oid none samples f e = subst Samples e tt
    matched_samples-Labelled m pdu oid (some (metric, oids)) samples f e =
        pdu_to_samples-Labelled host wrap_counters m oids pdu metric samples e
          (find-All IsPlain (λ x. x.oid) metrics oid plain f)

    all_samples-Labelled :
        (m : OidToPdu host wrap_counters) (entries : List (Bytes × Pdu F32 F64))
        → (samples : List (Sample F64))
        → all_samples host wrap_counters m (build_metric_tree (λ x. x.oid) metrics) entries
          ≡ some samples
        → All Labelled samples
    unfolding all_samples
    all_samples-Labelled m [] samples e = subst Samples e tt
    all_samples-Labelled m ((oid, pdu) ∷ entries) samples e =
        let (first, ef, e1) =
          >>=-eq-some
            (matched_samples host wrap_counters m pdu
              (find (oid_to_list oid) (build_metric_tree (λ x. x.oid) metrics)))
            _ e in
        let (rest, er, e2) =
          >>=-eq-some
            (all_samples host wrap_counters m (build_metric_tree (λ x. x.oid) metrics) entries) _
            e1 in
        subst Samples e2 (
          All-append Labelled first rest
            (matched_samples-Labelled m pdu (oid_to_list oid) _ first refl ef)
            (all_samples-Labelled m entries rest er))

    map_sample-Labelled :
        (samples : List (Sample F64))
        → All Labelled samples
        → All OutputLabelled (map sample samples)
    map_sample-Labelled [] h = tt
    map_sample-Labelled (s ∷ samples) (p, h) = (p, map_sample-Labelled samples h)

    outputs-Labelled :
        (callbacks : List Request → List Callback) (scrape : Scrape F32 F64)
        (os : List (Output F64))
        → outputs host wrap_counters callbacks metrics scrape ≡ some os
        → All OutputLabelled os
    unfolding outputs module_samples
    outputs-Labelled callbacks (scraped history pdus) os e =
        let (samples, es, e1) = >>=-eq-some (module_samples host wrap_counters metrics pdus) _ e in
        let (m, em, e2) = >>=-eq-some (index_pdus host wrap_counters pdus []) _ es in
        subst Outputs e1 (
          tt,
          (
            tt,
            (
              tt,
              (
                tt,
                All-append OutputLabelled (map sample samples) (scrape_duration ∷ [])
                    (map_sample-Labelled samples (all_samples-Labelled m m samples e2)) (tt, tt),
              ),
            ),
          ),
        )
    outputs-Labelled callbacks (scrape_error history pdus) os e = subst Outputs e (tt, tt)
    outputs-Labelled callbacks panic os e = cc
    outputs-Labelled callbacks out_of_fuel os e = cc

    -- Where no metric of the module has the type "EnumAsStateSet" or "Bits", everything that `collect`
    -- sends has distinct label names, whatever the device answers.
    pub collect-Labelled :
        (callbacks : List Request → List Callback) (device : Device F32 F64) (version : ℕ)
        (m : Module) (os : List (Output F64))
        → collect host wrap_counters callbacks device version m metrics ≡ some os
        → All OutputLabelled os
    unfolding collect
    collect-Labelled callbacks device version m os e =
        outputs-Labelled callbacks (scrape_target host device version m) os e
