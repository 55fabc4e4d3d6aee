-- ===== src/Collector/Worker.antt =====
-- The loop of a worker in `Collector.Collect` of collector/collector.go over the modules that it
-- receives: for each the options are set on its client, which is then scraped. Log lines and times are
-- left out.
pub mod Labels
use snmp_exporter.Common.{ℕ, ◌≡◌, Bool, List, [], ◌∷◌, Option, some, none, ◌>>=◌}
use snmp_exporter.Common.Int.{ℤ}
use snmp_exporter.Common.Text.{Bytes}
use snmp_exporter.Config.WalkParams.{WalkParams}
use snmp_exporter.Collector.Pdu.{Host}
use snmp_exporter.Collector.Scrape.{Request, Module, Device}
use snmp_exporter.Collector.Sample.{Metric}
use snmp_exporter.Collector.Options.{ClientOptions, Callback, set_walk_options}
use snmp_exporter.Collector.Collect.{Output, collect}

-- `NamedModule`, with the parts of its `config.Module`.
pub record NamedModule (F64 : Type 0) : Type 0 where
  pub name : Bytes
  pub scrape : Module
  pub metrics : List (Metric F64)
  pub walk_params : WalkParams ℤ

-- The client with its options, by which the device answers, and what it calls back.
pub record ScrapeClient (F32 F64 : Type 0) : Type 0 where
  pub device : ClientOptions → Device F32 F64
  pub callbacks : ClientOptions → List Request → List Callback

module _ {F32 F64 : Type 0} (host : Host F32 F64) (wrap_counters : Bool)
    (client : ScrapeClient F32 F64) (version : ℕ) where
  -- `collect` on the client as it is.
  unfoldable pub collect_module : NamedModule F64 → ClientOptions → Option (List (Output F64))
  unfolding collect
  collect_module m g =
      collect host wrap_counters (client.callbacks g) (client.device g) version m.scrape m.metrics

  -- What each module sends, with its name; `none` is a panic.
  unfoldable pub worker_outputs :
      List (NamedModule F64) → ClientOptions → Option (List (Bytes × List (Output F64)))
  unfolding collect_module set_walk_options
  worker_outputs [] g = some []
  worker_outputs (m ∷ modules) g = do
    h ← set_walk_options m.walk_params g
    os ← collect_module m h
    rest ← worker_outputs modules h
    some ((m.name, os) ∷ rest)
