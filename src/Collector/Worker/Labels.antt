-- ===== src/Collector/Worker/Labels.antt =====
-- What a worker of collector/collector.go sends, module by module.
use snmp_exporter.Common.{
  ℕ, ◌≡◌, refl, Bool, true, false, List, [], ◌∷◌, ◌++◌, map, any, length, Option, some, none, ◌>>=◌,
  >>=-eq-some, All, Bool-cases, ◌⊎◌, inl, inr, arith, sym,
}
use mathlib.Core.Path.{subst}
use mathlib.Core.Option.{some-injective}
use snmp_exporter.Common.Text.{Bytes}
use snmp_exporter.Collector.Pdu.{Host}
use snmp_exporter.Collector.Options.{ClientOptions, counts_of, no_counts, set_walk_options}
use snmp_exporter.Collector.Scrape.{
  Scrape, scraped, scrape_error, panic, out_of_fuel, scrape_target,
}
use snmp_exporter.Collector.Sample.{Metric, Sample, shape_of}
use snmp_exporter.Collector.Sample.Distinct.{adds_name}
use snmp_exporter.Collector.Collect.{
  Output, walk_duration, packets_sent, packets_retried, pdus_returned, sample, scrape_duration,
  scrape_failed, module_samples, outputs, collect,
}
use snmp_exporter.Collector.Collect.Labelled.{OutputLabelled, IsPlain, collect-Labelled}
use snmp_exporter.Collector.Worker.{NamedModule, ScrapeClient, collect_module, worker_outputs}

-- What holds of a panic and of each way to go on holds of the chain.
or_none :
    {A B : Type 0} (P : Option B → Type 0) (first : Option A) (next : A → Option B)
    → P none
    → ((a : A) → first ≡ some a → P (next a))
    → P (first >>= next)
or_none P none next p h = p
or_none P (some a) next p h = h a refl

-- The metric's type is "EnumAsStateSet" or "Bits".
abbrev pub is_state_set : {F64 : Type 0} → Metric F64 → Bool
is_state_set m = adds_name (shape_of m.type_)

All-IsPlain :
    {F64 : Type 0} (metrics : List (Metric F64))
    → any is_state_set metrics ≡ false
    → All IsPlain metrics
All-IsPlain [] e = tt
All-IsPlain (m ∷ metrics) e = (ground arith, All-IsPlain metrics (ground arith))

module _ {F32 F64 : Type 0} (host : Host F32 F64) (wrap_counters : Bool)
    (client : ScrapeClient F32 F64) (version : ℕ) where
  -- By how the scrape of a module ended: the duration of the walk, the counts of packets and PDUs, the
  -- samples of the PDUs and the duration of the scrape, or only that it failed.
  abbrev pub Reports : NamedModule F64 → ClientOptions → Scrape F32 F64 → List (Output F64) → Type 0
  Reports m g (scraped history pdus) os =
      (samples : List (Sample F64)) × ((module_samples host wrap_counters m.metrics pdus
          ≡ some samples)
        × (os
            ≡ walk_duration
              ∷ packets_sent (counts_of (client.callbacks g history) no_counts).packets
              ∷ packets_retried (counts_of (client.callbacks g history) no_counts).retries
              ∷ pdus_returned (length pdus)
              ∷ (map sample samples ++ (scrape_duration ∷ []))))
  Reports m g (scrape_error history pdus) os = os ≡ scrape_failed ∷ []
  Reports m g panic os = ⊥
  Reports m g out_of_fuel os = ⊥

  -- Each module has its entry, in order: its name, and the report of its scrape with the options that
  -- are set by then, in which all labels are distinct or the module has a metric of the two types.
  abbrev pub SentFor :
      List (NamedModule F64) → ClientOptions → List (Bytes × List (Output F64)) → Type 0
  SentFor [] g [] = Unit
  SentFor [] g (s ∷ sent) = ⊥
  SentFor (m ∷ modules) g [] = ⊥
  SentFor (m ∷ modules) g ((name, os) ∷ sent) =
      (name ≡ m.name)
      × ((h : ClientOptions) × ((set_walk_options m.walk_params g ≡ some h)
            × (Reports m h (scrape_target host (client.device h) version m.scrape) os
                × (((any is_state_set m.metrics ≡ true) ⊎ All OutputLabelled os)
                    × SentFor modules h sent))))

  abbrev Sent :
      List (NamedModule F64) → ClientOptions → Option (List (Bytes × List (Output F64))) → Type 0
  Sent modules g none = Unit
  Sent modules g (some sent) = SentFor modules g sent

  outputs-Reports :
      (m : NamedModule F64) (g : ClientOptions) (scrape : Scrape F32 F64) (os : List (Output F64))
      → outputs host wrap_counters (client.callbacks g) m.metrics scrape ≡ some os
      → Reports m g scrape os
  unfolding outputs
  outputs-Reports m g (scraped history pdus) os e =
      let (samples, p, q) = >>=-eq-some (module_samples host wrap_counters m.metrics pdus) _ e in
      (samples, (p, sym (some-injective _ _ q)))
  outputs-Reports m g (scrape_error history pdus) os e = sym (some-injective _ _ e)
  outputs-Reports m g panic os e = absurd (ground arith)
  outputs-Reports m g out_of_fuel os e = absurd (ground arith)

  collect_module-Reports :
      (m : NamedModule F64) (g : ClientOptions) (os : List (Output F64))
      → collect_module host wrap_counters client version m g ≡ some os
      → Reports m g (scrape_target host (client.device g) version m.scrape) os
        × ((any is_state_set m.metrics ≡ true) ⊎ All OutputLabelled os)
  unfolding collect_module collect
  collect_module-Reports m g os e = (
    outputs-Reports m g (scrape_target host (client.device g) version m.scrape) os e,
    elim (Bool-cases (any is_state_set m.metrics)) [
      | inl p ↦ inl p
      | inr p ↦ inr (
          collect-Labelled host wrap_counters m.metrics (All-IsPlain m.metrics p)
            (client.callbacks g) (client.device g) version m.scrape os e)
    ],
  )

  Sent-first :
      (m : NamedModule F64) (modules : List (NamedModule F64)) (g h : ClientOptions)
      (os : List (Output F64)) (rest : Option (List (Bytes × List (Output F64))))
      → set_walk_options m.walk_params g ≡ some h
      → collect_module host wrap_counters client version m h ≡ some os
      → Sent modules h rest
      → Sent (m ∷ modules) g (do sent ← rest; some ((m.name, os) ∷ sent))
  Sent-first m modules g h os none q r s = tt
  Sent-first m modules g h os (some sent) q r s =
      let (report, labels) = collect_module-Reports m h os r in
      (refl, (h, (q, (report, (labels, s)))))

  worker_outputs-Sent :
      (modules : List (NamedModule F64)) (g : ClientOptions)
      → Sent modules g (worker_outputs host wrap_counters client version modules g)
  unfolding worker_outputs
  worker_outputs-Sent [] g = tt
  worker_outputs-Sent (m ∷ modules) g =
      or_none (Sent (m ∷ modules) g) (set_walk_options m.walk_params g) _ tt (λ h q.
        or_none (Sent (m ∷ modules) g) (collect_module host wrap_counters client version m h) _ tt
          (λ os r.
            Sent-first m modules g h os (worker_outputs host wrap_counters client version modules h)
              q r (worker_outputs-Sent modules h)))

  -- A worker that does not panic sends one report for each module that it received, in order: that the
  -- scrape failed, or the duration of the walk, the counts, all samples of the PDUs and the duration of
  -- the scrape. All of it has distinct label names, unless a metric of the module has the type
  -- "EnumAsStateSet" or "Bits".
  pub worker_outputs-SentFor :
      (modules : List (NamedModule F64)) (g : ClientOptions)
      (sent : List (Bytes × List (Output F64)))
      → worker_outputs host wrap_counters client version modules g ≡ some sent
      → SentFor modules g sent
  worker_outputs-SentFor modules g sent e = subst (Sent modules g) e (worker_outputs-Sent modules g)
