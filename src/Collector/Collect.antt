-- ===== src/Collector/Collect.antt =====
-- What `collect` of collector/collector.go does with a module: the scrape, the variables under their
-- OIDs, the search of the metric of each and its samples. `none` is a panic. The options that it sets
-- on the client are a module of their own, and the times are left out.
pub mod Complete
pub mod Labelled
use snmp_exporter.Common.{ℕ, ◌≡◌, List, [], ◌∷◌, ◌++◌, map, Option, some, none, ◌>>=◌, Bool, length}
use snmp_exporter.Common.Text.{Bytes}
use snmp_exporter.Common.Map.{insert}
use snmp_exporter.Collector.Oid.{Oid, oid_to_list}
use snmp_exporter.Collector.Pdu.{Pdu, Host, trim_first}
use snmp_exporter.Collector.Options.{Callback, counts_of, no_counts}
use snmp_exporter.Collector.Scrape.{
  Request, Module, Device, Scrape, scraped, scrape_error, panic, out_of_fuel, scrape_target,
}
use snmp_exporter.Collector.MetricTree.{MetricNode, build_metric_tree, find}
use snmp_exporter.Collector.Labels.{OidToPdu}
use snmp_exporter.Collector.Sample.{Metric, Sample, pdu_to_samples}

-- What is sent to `ch`, in order.
pub data Output (F64 : Type 0) : Type 0 where
  scrape_failed walk_duration scrape_duration : Output F64
  packets_sent packets_retried pdus_returned : ℕ → Output F64
  sample : Sample F64 → Output F64

module _ {F32 F64 : Type 0} (host : Host F32 F64) (wrap_counters : Bool) where
  -- The map `oidToPdu`: each variable under its name without the leading dot.
  unfoldable pub index_pdus :
      List (Pdu F32 F64) → OidToPdu host wrap_counters → Option (OidToPdu host wrap_counters)
  index_pdus [] m = some m
  index_pdus (pdu ∷ pdus) m = do oid ← trim_first pdu.name; index_pdus pdus (insert oid pdu m)

  -- The samples of one variable, where a metric is found for it.
  unfoldable pub matched_samples :
      OidToPdu host wrap_counters
      → Pdu F32 F64
      → Option (Metric F64 × Oid)
      → Option (List (Sample F64))
  matched_samples oid_to_pdu pdu none = some []
  matched_samples oid_to_pdu pdu (some (metric, oids)) =
      pdu_to_samples host wrap_counters oid_to_pdu oids pdu metric

  unfoldable pub all_samples :
      OidToPdu host wrap_counters
      → MetricNode (Metric F64)
      → List (Bytes × Pdu F32 F64)
      → Option (List (Sample F64))
  all_samples oid_to_pdu tree [] = some []
  all_samples oid_to_pdu tree ((oid, pdu) ∷ entries) = do
    samples ← matched_samples oid_to_pdu pdu (find (oid_to_list oid) tree)
    rest ← all_samples oid_to_pdu tree entries
    some (samples ++ rest)

  unfoldable pub module_samples :
      List (Metric F64) → List (Pdu F32 F64) → Option (List (Sample F64))
  module_samples metrics pdus = do
    oid_to_pdu ← index_pdus pdus []
    all_samples oid_to_pdu (build_metric_tree (λ m. m.oid) metrics) oid_to_pdu

  -- What the client calls back while the requests are made is an argument.
  unfoldable pub outputs :
      (List Request → List Callback)
      → List (Metric F64)
      → Scrape F32 F64
      → Option (List (Output F64))
  unfolding counts_of
  outputs callbacks metrics (scraped history pdus) = do
    let counts = counts_of (callbacks history) no_counts
    samples ← module_samples metrics pdus
    some (
        walk_duration
        ∷ packets_sent counts.packets
        ∷ packets_retried counts.retries
        ∷ pdus_returned (length pdus)
        ∷ (map sample samples ++ (scrape_duration ∷ [])))
  outputs callbacks metrics (scrape_error history pdus) = some (scrape_failed ∷ [])
  outputs callbacks metrics panic = none
  outputs callbacks metrics out_of_fuel = none

  -- `collect`, for a module with its metrics and the version of the protocol.
  unfoldable pub collect :
      (List Request → List Callback)
      → Device F32 F64
      → ℕ
      → Module
      → List (Metric F64)
      → Option (List (Output F64))
  collect callbacks device version m metrics =
      outputs callbacks metrics (scrape_target host device version m)
