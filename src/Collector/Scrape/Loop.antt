-- ===== src/Collector/Scrape/Loop.antt =====
-- The requests of the get loop and of the walks.
use snmp_exporter.Common.{
  ℕ, zero, suc, ◌≤◌, ◌<◌, ◌≡◌, ◌≢◌, refl, ap, ◌∙◌, List, [], ◌∷◌, ◌++◌, map, arith, some, length,
  take, drop, Option-cases, inl, inr, append_assoc, append-nil, All, take-append-drop, length-take,
  length-drop,
}
use snmp_exporter.Common.Text.{Bytes}
use snmp_exporter.Collector.Pdu.{Pdu, Host}
use snmp_exporter.Collector.Scrape.{
  Request, get_request, walk_request, Device, scraped, out_of_fuel, walk_loop, get_loop,
  packet_pdus, max_oids, Module, Filtering, evaluate_filters, apply_allowed, scrape_target,
}

-- The OIDs in runs of `max`.
pub chunks : ℕ → ℕ → List Bytes → List (List Bytes)
chunks fuel max [] = []
chunks zero max (oid ∷ oids) = []
chunks (suc fuel) max (oid ∷ oids) = take max (oid ∷ oids) ∷ chunks fuel max (drop max (oid ∷ oids))

abbrev pub concat : List (List Bytes) → List Bytes
concat [] = []
concat (c ∷ cs) = c ++ concat cs

-- A request asks for at least one OID and for at most `max`.
abbrev pub IsChunk : ℕ → List Bytes → Type 0
IsChunk max c = (0 < length c) × (length c ≤ max)

concat-chunks :
    (fuel max : ℕ) (oids : List Bytes)
    → 0 < max
    → length oids ≤ fuel
    → concat (chunks fuel max oids) ≡ oids
unfolding chunks
concat-chunks fuel max [] p h = refl
concat-chunks zero max (oid ∷ oids) p h = absurd (omega arith)
concat-chunks (suc fuel) max (oid ∷ oids) p h =
    ap (λ z. take max (oid ∷ oids) ++ z)
      (concat-chunks fuel max (drop max (oid ∷ oids)) p
        (omega (arith, length-drop max (oid ∷ oids))))
    ∙ take-append-drop max (oid ∷ oids)

chunks-IsChunk :
    (fuel max : ℕ) (oids : List Bytes) → 0 < max → All (IsChunk max) (chunks fuel max oids)
unfolding chunks
chunks-IsChunk fuel max [] p = tt
chunks-IsChunk zero max (oid ∷ oids) p = tt
chunks-IsChunk (suc fuel) max (oid ∷ oids) p = (
  (omega (arith, length-take max (oid ∷ oids)), omega (arith, length-take max (oid ∷ oids))),
  chunks-IsChunk fuel max (drop max (oid ∷ oids)) p,
)

module _ {F32 F64 : Type 0} (device : Device F32 F64) where
  walk_loop-requests :
      (walks : List Bytes) (history : List Request) (pdus : List (Pdu F32 F64)) {h : List Request}
      {p : List (Pdu F32 F64)}
      → walk_loop device walks history pdus ≡ scraped h p
      → h ≡ history ++ map walk_request walks
  unfolding walk_loop
  walk_loop-requests [] history pdus e = ground (arith, append-nil history)
  walk_loop-requests (w ∷ walks) history pdus e = elim (Option-cases (device.on_walk history w)) [
    | inl failing ↦ cc (rw (failing, walk_loop) at e)
    | inr (more, f) ↦
        walk_loop-requests walks _ _ (rw (f, walk_loop) at e)
        ∙ append_assoc history (walk_request w ∷ []) (map walk_request walks)
  ]

  get_loop-requests :
      (fuel version max : ℕ) (oids walks : List Bytes) (history : List Request)
      (pdus : List (Pdu F32 F64)) {h : List Request} {p : List (Pdu F32 F64)}
      → get_loop device fuel version max oids walks history pdus ≡ scraped h p
      → h ≡ history ++ (map get_request (chunks fuel max oids) ++ map walk_request walks)
  unfolding get_loop chunks
  get_loop-requests zero version max [] walks history pdus e =
      walk_loop-requests walks history pdus e
  get_loop-requests (suc fuel) version max [] walks history pdus e =
      walk_loop-requests walks history pdus e
  get_loop-requests zero version max (oid ∷ oids) walks history pdus e = cc
  get_loop-requests (suc fuel) version max (oid ∷ oids) walks history pdus e =
      elim (Option-cases (device.on_get history (take max (oid ∷ oids)))) [
        | inl failing ↦ cc (rw (failing, get_loop) at e)
        | inr (packet, f) ↦ elim (Option-cases (packet_pdus device version packet.0 packet.1)) [
          | inl refused ↦ cc (rw (f, refused, get_loop) at e)
          | inr (more, g) ↦
              get_loop-requests fuel version max (drop max (oid ∷ oids)) walks _ _
                (rw (f, g, get_loop) at e)
              ∙ append_assoc history (get_request (take max (oid ∷ oids)) ∷ []) _
        ]
      ]

  walk_loop_total :
      (walks : List Bytes) (history : List Request) (pdus : List (Pdu F32 F64))
      → walk_loop device walks history pdus ≢ out_of_fuel
  unfolding walk_loop
  walk_loop_total [] history pdus = cc
  walk_loop_total (w ∷ walks) history pdus = elim (Option-cases (device.on_walk history w)) [
    | inl failing ↦ rw (failing, walk_loop) (cc)
    | inr (more, f) ↦ rw (f, walk_loop) (walk_loop_total walks _ _)
  ]

  get_loop_total :
      (fuel version max : ℕ) (oids walks : List Bytes) (history : List Request)
      (pdus : List (Pdu F32 F64))
      → 0 < max
      → length oids ≤ fuel
      → get_loop device fuel version max oids walks history pdus ≢ out_of_fuel
  unfolding get_loop
  get_loop_total zero version max [] walks history pdus q h = walk_loop_total walks history pdus
  get_loop_total (suc fuel) version max [] walks history pdus q h =
      walk_loop_total walks history pdus
  get_loop_total zero version max (oid ∷ oids) walks history pdus q h = absurd (omega arith)
  get_loop_total (suc fuel) version max (oid ∷ oids) walks history pdus q h =
      elim (Option-cases (device.on_get history (take max (oid ∷ oids)))) [
        | inl failing ↦ rw (failing, get_loop) (cc)
        | inr (packet, f) ↦ elim (Option-cases (packet_pdus device version packet.0 packet.1)) [
          | inl refused ↦ rw (f, refused, get_loop) (cc)
          | inr (more, g) ↦
              rw (f, g, get_loop)
                (get_loop_total fuel version max (drop max (oid ∷ oids)) walks _ _ q
                  (omega (arith, length-drop max (oid ∷ oids))))
        ]
      ]

max_oids_pos : (version repetitions : ℕ) → 0 < max_oids version repetitions
unfolding max_oids
max_oids_pos version repetitions = ground arith

-- The chunks and what `ScrapeTarget` has asked for when it ends well.
pub record Requested (max : ℕ) (gets walks : List Bytes) (before after : List Request)
    : Type 0 where
  pub runs : List (List Bytes)
  pub covers : concat runs ≡ gets
  pub bounded : All (IsChunk max) runs
  pub asked : after ≡ before ++ (map get_request runs ++ map walk_request walks)

module _ {F32 F64 : Type 0} (host : Host F32 F64) (device : Device F32 F64) (version : ℕ)
    (m : Module) where
  abbrev start : Filtering
  start = record { history = []; walks = m.walk; allowed = [] }

  -- Where `ScrapeTarget` ends with results, the filters were evaluated, and behind their walks it
  -- has asked for every OID that they leave to get, once and in order, in requests of one to
  -- `maxOids` OIDs, and then has walked every subtree that they leave, once and in order.
  pub scrape_target-Requested :
      {h : List Request} {p : List (Pdu F32 F64)}
      → scrape_target host device version m ≡ scraped h p
      → (s : Filtering) × (evaluate_filters host device m.filters start ≡ some s)
        × Requested
            (max_oids version m.max_repetitions)
            (apply_allowed s.allowed m.get)
            s.walks
            s.history
            h
  unfolding scrape_target
  scrape_target-Requested e = elim (Option-cases (evaluate_filters host device m.filters start)) [
    | inl broken ↦ cc (rw (broken, scrape_target) at e)
    | inr (s, f) ↦
        let gets = apply_allowed s.allowed m.get in
        (
          s,
          f,
          record {
            runs = chunks (length gets) (max_oids version m.max_repetitions) gets;
            covers =
                concat-chunks (length gets) _ gets (max_oids_pos version m.max_repetitions)
                  (omega arith);
            bounded = chunks-IsChunk (length gets) _ gets (max_oids_pos version m.max_repetitions);
            asked =
                get_loop-requests device (length gets) version _ gets s.walks s.history []
                  (rw (f, scrape_target) at e);
          },
        )
  ]

  -- The get loop ends within its fuel, whatever the device answers.
  pub scrape_target_total : scrape_target host device version m ≢ out_of_fuel
  unfolding scrape_target
  scrape_target_total = elim (Option-cases (evaluate_filters host device m.filters start)) [
    | inl broken ↦ rw (broken, scrape_target) (cc)
    | inr (s, f) ↦
        rw (f, scrape_target)
          (get_loop_total device (length (apply_allowed s.allowed m.get)) version _ _ s.walks
            s.history [] (max_oids_pos version m.max_repetitions) (omega arith))
  ]
