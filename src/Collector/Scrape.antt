-- ===== src/Collector/Scrape.antt =====
-- `ScrapeTarget` of collector/collector.go and the functions that it calls on the configured OIDs.
-- The device answers by the history of the requests it has had, so the model covers every agent;
-- the history is the state that the operations pass on. Log lines are left out.
pub mod Filter
pub mod Gets
pub mod Evaluate
pub mod Loop
use snmp_exporter.Common.{
  ℕ, zero, suc, ◌+◌, ◌-◌, ◌≤◌, ◌<◌, ◌≡◌, refl, min, Bool, true, false, not, ◌&&◌, ◌||◌, List, [],
  ◌∷◌, ◌++◌, map, arith, ◌==◌, if◌then◌else◌, Option, some, none, length, take, drop, keep, any,
  ◌>>=◌,
}
use snmp_exporter.Common.Text.{Bytes, text, equal, has_prefix, split}
use snmp_exporter.Collector.Pdu.{
  Pdu, Host, Asn1Ber, no_such_object, no_such_instance, end_of_mib_view, pdu_value_as_string,
}
use snmp_exporter.Common.Text.{contains}

-- `config.DynamicFilter`.
pub record DynamicFilter : Type 0 where
  pub oid : Bytes
  pub targets : List Bytes
  pub values : List Bytes

-- What `ScrapeTarget` reads of `config.Module`.
pub record Module : Type 0 where
  pub walk : List Bytes
  pub get : List Bytes
  pub max_repetitions : ℕ
  pub filters : List DynamicFilter

-- `intersectIndices`: those of `a` that are in `b`, in the order of `a`.
unfoldable pub intersect_indices : List Bytes → List Bytes → List Bytes
intersect_indices a b = keep (contains b) a

-- `updateWalkConfig`: the elements that are no target.
unfoldable pub update_walk_config : List Bytes → DynamicFilter → List Bytes
update_walk_config walk_config filter =
    keep (λ elem. not (contains filter.targets elem)) walk_config

-- `updateGetConfig`: the elements of which no target is a prefix.
unfoldable pub update_get_config : List Bytes → DynamicFilter → List Bytes
update_get_config get_config filter =
    keep (λ elem. not (any (has_prefix elem) filter.targets)) get_config

abbrev pub target_index : Bytes → Bytes → Bytes
target_index target index = target ++ (b'.' ∷ index)

-- `addAllowedIndices`.
unfoldable pub add_allowed_indices : List Bytes → List Bytes → List Bytes → List Bytes
add_allowed_indices [] allowed_list new_cfg = new_cfg
add_allowed_indices (target ∷ targets) allowed_list new_cfg =
    add_allowed_indices targets allowed_list (new_cfg ++ map (target_index target) allowed_list)

-- `pduArray[len(pduArray)-1]`.
unfoldable pub last_part : List Bytes → Bytes
last_part [] = []
last_part (p ∷ []) = p
last_part (p ∷ q ∷ ps) = last_part (q ∷ ps)

module _ {F32 F64 : Type 0} (host : Host F32 F64) where
  -- The loop over the values of a filter, up to the first that matches.
  unfoldable pub matches_any : Bytes → List Bytes → Option Bool
  matches_any snmpval [] = some false
  matches_any snmpval (val ∷ values) = elim (host.match_string val snmpval) [
    | none ↦ none
    | some true ↦ some true
    | some false ↦ matches_any snmpval values
  ]

  -- The value is read again for each configured value; without one it is not read.
  unfoldable pub filter_matches : List Bytes → Pdu F32 F64 → Option Bool
  filter_matches [] pdu = some false
  filter_matches (val ∷ values) pdu = do
    snmpval ← pdu_value_as_string host pdu (text "DisplayString") []
    matches_any snmpval (val ∷ values)

  -- `filterAllowedIndices`: the last part of the name of each variable with a matching value.
  unfoldable pub filter_allowed_indices :
      DynamicFilter → List (Pdu F32 F64) → List Bytes → Option (List Bytes)
  filter_allowed_indices filter [] allowed_list = some allowed_list
  filter_allowed_indices filter (pdu ∷ pdus) allowed_list = do
    found ← filter_matches filter.values pdu
    filter_allowed_indices filter pdus
        (if found then allowed_list ++ last_part (split pdu.name b'.') ∷ [] else allowed_list)

-- `allowedIndicesByTarget` and `filteredTargets`, the keys in the order of their first filter.
abbrev pub Allowed : Type 0
Allowed = List (Bytes × List Bytes)

-- One target of a filter: the intersection with what earlier filters allow, or a new entry.
unfoldable pub allow : Bytes → List Bytes → Allowed → Allowed
allow target allowed_list [] = (target, allowed_list) ∷ []
allow target allowed_list ((t, existing) ∷ m) =
    if equal t target
    then (t, intersect_indices existing allowed_list) ∷ m
    else (t, existing) ∷ allow target allowed_list m

unfoldable pub allow_targets : List Bytes → List Bytes → Allowed → Allowed
allow_targets [] allowed_list m = m
allow_targets (target ∷ targets) allowed_list m =
    allow_targets targets allowed_list (allow target allowed_list m)

-- The combined filters: each filtered target leaves the get config, and its indices come back.
unfoldable pub apply_allowed : Allowed → List Bytes → List Bytes
apply_allowed [] new_get = new_get
apply_allowed ((target, allowed_list) ∷ m) new_get = apply_allowed m (
    add_allowed_indices (target ∷ []) allowed_list
      (update_get_config new_get (record { oid = []; targets = target ∷ []; values = [] })))

-- The error status of a packet, as far as the code tells them apart.
pub data PacketError : Type 0 where
  no_error no_such_name : PacketError
  other_error : ℕ → PacketError

pub data Request : Type 0 where
  get_request : List Bytes → Request
  walk_request : Bytes → Request

-- `scraper.SNMPScraper`: what the device answers after a history of requests; `none` is an error.
pub record Device (F32 F64 : Type 0) : Type 0 where
  pub on_get : List Request → List Bytes → Option (PacketError × List (Pdu F32 F64))
  pub on_walk : List Request → Bytes → Option (List (Pdu F32 F64))

-- How `ScrapeTarget` ends: with results, with an error beside the results so far, in a panic,
-- or not within the fuel of the model.
pub data Scrape (F32 F64 : Type 0) : Type 0 where
  scraped : List Request → List (Pdu F32 F64) → Scrape F32 F64
  scrape_error : List Request → List (Pdu F32 F64) → Scrape F32 F64
  panic : Scrape F32 F64
  out_of_fuel : Scrape F32 F64

unfoldable pub is_supported : Asn1Ber → Bool
is_supported no_such_object = false
is_supported no_such_instance = false
is_supported end_of_mib_view = false
is_supported _ = true

-- `maxOids`: never 0, and 1 for SNMPv1.
unfoldable pub max_oids : ℕ → ℕ → ℕ
max_oids version max_repetitions =
    if max_repetitions == 0 || version == 1 then 1 else max_repetitions

-- The state of the evaluation of the filters.
pub record Filtering : Type 0 where
  pub history : List Request
  pub walks : List Bytes
  pub allowed : Allowed

module _ {F32 F64 : Type 0} (host : Host F32 F64) (device : Device F32 F64) where
  -- One filter: nothing is filtered where its walk fails.
  unfoldable pub evaluate_filter : DynamicFilter → Filtering → Option Filtering
  evaluate_filter filter s = elim (device.on_walk s.history filter.oid) [
    | none ↦ some (record s { history = s.history ++ walk_request filter.oid ∷ [] })
    | some pdus ↦ do
      allowed_list ← filter_allowed_indices host filter pdus []
      some (record {
        history = s.history ++ walk_request filter.oid ∷ [];
        walks = update_walk_config s.walks filter;
        allowed = allow_targets filter.targets allowed_list s.allowed;
      })
  ]

  unfoldable pub evaluate_filters : List DynamicFilter → Filtering → Option Filtering
  evaluate_filters [] s = some s
  evaluate_filters (filter ∷ filters) s = do
    s' ← evaluate_filter filter s
    evaluate_filters filters s'

module _ {F32 F64 : Type 0} (device : Device F32 F64) where
  -- The walks, each subtree in order.
  unfoldable pub walk_loop : List Bytes → List Request → List (Pdu F32 F64) → Scrape F32 F64
  walk_loop [] history pdus = scraped history pdus
  walk_loop (subtree ∷ walks) history pdus = elim (device.on_walk history subtree) [
    | none ↦ scrape_error (history ++ walk_request subtree ∷ []) pdus
    | some more ↦ walk_loop walks (history ++ walk_request subtree ∷ []) (pdus ++ more)
  ]

  -- What a packet adds to the results; `none` is an error.
  unfoldable pub packet_pdus : ℕ → PacketError → List (Pdu F32 F64) → Option (List (Pdu F32 F64))
  packet_pdus version no_error variables = some (keep (λ v. is_supported v.typ) variables)
  packet_pdus version no_such_name variables = if version == 1 then some [] else none
  packet_pdus version (other_error n) variables = none

  -- The loop over the OIDs to get, `maxOids` of them in a request, and then the walks.
  unfoldable pub get_loop :
      ℕ → ℕ → ℕ → List Bytes → List Bytes → List Request → List (Pdu F32 F64) → Scrape F32 F64
  get_loop fuel version max [] walks history pdus = walk_loop walks history pdus
  get_loop zero version max (oid ∷ oids) walks history pdus = out_of_fuel
  get_loop (suc fuel) version max (oid ∷ oids) walks history pdus =
      elim (device.on_get history (take max (oid ∷ oids))) [
        | none ↦ scrape_error (history ++ get_request (take max (oid ∷ oids)) ∷ []) pdus
        | some packet ↦ elim (packet_pdus version packet.0 packet.1) [
          | none ↦ scrape_error (history ++ get_request (take max (oid ∷ oids)) ∷ []) pdus
          | some more ↦
              get_loop fuel version max (drop max (oid ∷ oids)) walks
                (history ++ get_request (take max (oid ∷ oids)) ∷ []) (pdus ++ more)
        ]
      ]

-- `ScrapeTarget`. Each round of the get loop asks for at least one OID, so their count is fuel
-- enough.
unfoldable pub scrape_target :
    {F32 F64 : Type 0} → Host F32 F64 → Device F32 F64 → ℕ → Module → Scrape F32 F64
scrape_target host device version m =
    elim (evaluate_filters host device m.filters
      (record { history = []; walks = m.walk; allowed = [] })) [
        | none ↦ panic
        | some s ↦
            let gets = apply_allowed s.allowed m.get in
            get_loop device (length gets) version (max_oids version m.max_repetitions) gets s.walks
              s.history []
      ]
