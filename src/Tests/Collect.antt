-- ===== src/Tests/Collect.antt =====
-- The theorems on `collect` at a device.
use snmp_exporter.Common.{false, none, sym, ◌∙◌}
use snmp_exporter.Common.{◌≡◌, refl, List, [], ◌∷◌, some}
use snmp_exporter.Common.Text.{text, equal, split}
use snmp_exporter.Common.Map.{lookup, insert}
use snmp_exporter.Common.Int.{ℤ, pos}
use snmp_exporter.Common.Decimal.{atoi}
use snmp_exporter.Collector.Index.{int_eq}
use snmp_exporter.Collector.Oid.{oid_to_list}
use snmp_exporter.Collector.Pdu.{Pdu, trim_first}
use snmp_exporter.Collector.Scrape.{
  Module, Device, no_error, scrape_target, get_loop, walk_loop, apply_allowed, evaluate_filters,
  max_oids,
}
use snmp_exporter.Collector.MetricTree.{build_metric_tree, insert_all, update_child, child, find}
use snmp_exporter.Collector.MetricTree.Laws.{shortest, last_with, find-build_metric_tree}
use snmp_exporter.Collector.MetricTree as MetricTree
use snmp_exporter.Collector.Sample.{Sample, const_metric, gauge, pdu_to_samples}
use snmp_exporter.Collector.Labels.{OidToPdu}
use snmp_exporter.Collector.Options.{
  set_walk_options, Callback, on_sent, on_recv, on_retry, counts_of, count_callback,
}
use snmp_exporter.Collector.Scrape.{Request}
use snmp_exporter.Collector.Collect.{
  Output, walk_duration, packets_sent, packets_retried, scrape_duration, pdus_returned, sample,
  index_pdus, matched_samples, all_samples, module_samples, outputs, collect,
}
use snmp_exporter.Collector.Worker.{NamedModule, ScrapeClient, collect_module, worker_outputs}
use snmp_exporter.Collector.Worker.Labels.{SentFor, worker_outputs-SentFor}
use snmp_exporter.Tests.Options.{client, careful, careless}
use snmp_exporter.Collector.Collect.Complete.{Within, module_samples-Within}
use snmp_exporter.Tests.Samples.{host, alias, alias_labels, variable, run_samples}

abbrev descr : Pdu ℤ ℤ
descr = variable (text ".1.2.2.7") (text "eth0")

abbrev uplink : Pdu ℤ ℤ
uplink = variable (text ".1.2.18.7") (text "uplink")

abbrev device : Device ℤ ℤ
device = record {
  on_get = λ history oids. some (no_error, []);
  on_walk = λ history oid. some (descr ∷ uplink ∷ []);
}

abbrev if_module : Module
if_module = record { walk = text "1.2" ∷ []; get = []; max_repetitions = 25; filters = [] }

abbrev indexed : OidToPdu host false
indexed = (text "1.2.2.7", descr) ∷ (text "1.2.18.7", uplink) ∷ []

abbrev alias_sample : Sample ℤ
alias_sample = const_metric (text "ifAlias") gauge (pos 1) alias_labels

indexed_run : index_pdus host false (descr ∷ uplink ∷ []) [] ≡ some indexed
unfolding index_pdus trim_first insert equal text
indexed_run = refl

module_run : module_samples host false (alias ∷ []) (descr ∷ uplink ∷ []) ≡ some (alias_sample ∷ [])
unfolding module_samples index_pdus trim_first insert equal text all_samples matched_samples find
    child build_metric_tree insert_all MetricTree.insert update_child oid_to_list split atoi
    run_samples
module_run = refl

-- A packet that had to be sent again.
abbrev callbacks : List Request → List Callback
callbacks history = on_sent ∷ on_retry ∷ on_sent ∷ on_recv ∷ []

abbrev collected : List (Output ℤ)
collected =
    walk_duration
    ∷ packets_sent 2
    ∷ packets_retried 1
    ∷ pdus_returned 2
    ∷ sample alias_sample
    ∷ scrape_duration
    ∷ []

collect_run : collect host false callbacks device 2 if_module (alias ∷ []) ≡ some collected
unfolding collect outputs counts_of count_callback scrape_target get_loop walk_loop apply_allowed
    evaluate_filters max_oids
collect_run = rw (module_run, outputs) refl

-- Two modules on one client, of which the first turns the check of the OIDs off.
abbrev scrape_client : ScrapeClient ℤ ℤ
scrape_client = record { device = λ g. device; callbacks = λ g. callbacks }

abbrev received : List (NamedModule ℤ)
received =
    record {
      name = text "careless";
      scrape = if_module;
      metrics = alias ∷ [];
      walk_params = careless;
    }
    ∷ record {
      name = text "careful";
      scrape = if_module;
      metrics = alias ∷ [];
      walk_params = careful;
    }
    ∷ []

worker_run :
    worker_outputs host false scrape_client 2 received client
    ≡ some ((text "careless", collected) ∷ (text "careful", collected) ∷ [])
unfolding worker_outputs set_walk_options collect_module
worker_run = rw collect_run refl

worker_outputs-SentFor_example :
    SentFor host false scrape_client 2 received client
      ((text "careless", collected) ∷ (text "careful", collected) ∷ [])
worker_outputs-SentFor_example =
    worker_outputs-SentFor host false scrape_client 2 received client
      ((text "careless", collected) ∷ (text "careful", collected) ∷ []) worker_run

tree_run :
    find (oid_to_list (text "1.2.18.7")) (build_metric_tree (λ x. x.oid) (alias ∷ []))
    ≡ some (alias, pos 7 ∷ [])
unfolding find child build_metric_tree insert_all MetricTree.insert update_child oid_to_list split
    atoi text int_eq
tree_run = refl

alias_found :
    shortest (λ p. last_with (λ x. x.oid) (alias ∷ []) p none) (oid_to_list (text "1.2.18.7"))
    ≡ some (alias, pos 7 ∷ [])
alias_found =
    sym (find-build_metric_tree (λ x. x.oid) (alias ∷ []) (oid_to_list (text "1.2.18.7")))
    ∙ tree_run

pdus_by_oid : lookup (text "1.2.18.7") indexed ≡ some uplink
unfolding lookup equal text
pdus_by_oid = refl

uplink_run : pdu_to_samples host false indexed (pos 7 ∷ []) uplink alias ≡ some (alias_sample ∷ [])
unfolding run_samples
uplink_run = refl

module_samples-Within_example : Within (alias_sample ∷ []) (alias_sample ∷ [])
module_samples-Within_example =
    module_samples-Within host false (alias ∷ []) (descr ∷ uplink ∷ []) indexed (text "1.2.18.7")
      uplink alias (pos 7 ∷ []) (alias_sample ∷ []) (alias_sample ∷ []) indexed_run pdus_by_oid
      alias_found uplink_run module_run
