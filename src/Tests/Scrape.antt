-- ===== src/Tests/Scrape.antt =====
-- A device, and the theorems on `ScrapeTarget` at it.
use snmp_exporter.Common.{◌≡◌, ◌≢◌, refl, true, false, List, [], ◌∷◌, ◌++◌, map, some, none, arith}
use snmp_exporter.Common.Text.{Bytes, text, equal, has_prefix, split}
use snmp_exporter.Common.Utf8.{to_valid_utf8}
use snmp_exporter.Common.Int.{pos}
use snmp_exporter.Collector.Pdu.{
  Pdu, string, nothing, Host, other_type, no_such_object, pdu_value_as_string,
}
use snmp_exporter.Collector.Scrape.{
  DynamicFilter, Module, update_walk_config, update_get_config, target_index, add_allowed_indices,
  last_part, matches_any, filter_matches, filter_allowed_indices, allow, allow_targets,
  apply_allowed, no_error, Request, get_request, walk_request, Device, scraped, out_of_fuel,
  is_supported, max_oids, Filtering, evaluate_filter, evaluate_filters, walk_loop, packet_pdus,
  get_loop, scrape_target,
}
use snmp_exporter.Collector.Scrape.Loop.{Requested, scrape_target-Requested, scrape_target_total}
use snmp_exporter.Collector.Scrape.Gets.{clear_of, apply_allowed-allowed, apply_allowed-shadows}
use snmp_exporter.Collector.Scrape.Evaluate.{Combined, evaluate_filters-Combined}
use snmp_exporter.Common.Text.{contains}

abbrev NoFloat : Type 0
NoFloat = Unit {0}

-- Patterns match the text that they spell.
abbrev host : Host NoFloat NoFloat
host = record {
  f32_text = λ f. [];
  f64_text = λ f. [];
  f64_parse = λ s. none;
  f64_of_f32 = λ f. f;
  f64_of_int = λ z. tt;
  f64_of_uint = λ n. tt;
  f64_to_int = λ f. pos 0;
  f64_is_zero = λ f. true;
  f64_mul = λ a b. a;
  f64_add = λ a b. a;
  match_string = λ p s. some (equal p s);
  expand_match = λ p t s. none;
  to_big_int = λ v. pos 0;
  accepts_metric = λ n ls vs. true;
  parse_zone = λ s. none;
  date_unix = λ fields zone. zone;
  pattern_unix = λ s p. none;
}

abbrev named : Bytes → Bytes → Pdu NoFloat NoFloat
named name v = record { name = name; typ = other_type; value = string v }

-- Two interfaces, of which the first is up; it answers a request with one variable for each OID.
abbrev device : Device NoFloat NoFloat
device = record {
  on_get = λ history oids.
      some
        (no_error, map (λ oid. record { name = oid; typ = no_such_object; value = nothing }) oids);
  on_walk = λ history oid.
      some (named (text ".1.8.1") (text "up") ∷ named (text ".1.8.2") (text "down") ∷ []);
}

abbrev up_only : DynamicFilter
up_only = record { oid = text "1.8"; targets = text "1.2" ∷ []; values = text "up" ∷ [] }

abbrev if_module : Module
if_module = record {
  walk = text "1.2" ∷ text "1.3" ∷ [];
  get = text "1.9.0" ∷ [];
  max_repetitions = 25;
  filters = up_only ∷ [];
}

abbrev start : Filtering
start = record { history = []; walks = if_module.walk; allowed = [] }

abbrev filtered : Filtering
filtered = record {
  history = walk_request (text "1.8") ∷ [];
  walks = text "1.3" ∷ [];
  allowed = (text "1.2", text "1" ∷ []) ∷ [];
}

filters_run : evaluate_filters host device (up_only ∷ []) start ≡ some filtered
unfolding evaluate_filters evaluate_filter filter_allowed_indices filter_matches matches_any
    pdu_value_as_string to_valid_utf8 last_part split update_walk_config allow_targets allow equal
    text
filters_run = refl

abbrev history : List Request
history =
    walk_request (text "1.8")
    ∷ get_request (text "1.9.0" ∷ text "1.2.1" ∷ [])
    ∷ walk_request (text "1.3")
    ∷ []

abbrev results : List (Pdu NoFloat NoFloat)
results = named (text ".1.8.1") (text "up") ∷ named (text ".1.8.2") (text "down") ∷ []

scrape_run : scrape_target host device 2 if_module ≡ scraped history results
unfolding scrape_target get_loop walk_loop packet_pdus is_supported max_oids apply_allowed
    add_allowed_indices update_get_config has_prefix evaluate_filters evaluate_filter
    filter_allowed_indices filter_matches matches_any pdu_value_as_string to_valid_utf8 last_part
    split update_walk_config allow_targets allow equal text
scrape_run = refl

scrape_target-Requested_example :
    (s : Filtering) × (evaluate_filters host device (up_only ∷ []) start ≡ some s)
    × Requested
        (max_oids 2 25)
        (apply_allowed s.allowed (text "1.9.0" ∷ []))
        s.walks
        s.history
        history
scrape_target-Requested_example = scrape_target-Requested host device 2 if_module scrape_run

scrape_target_total_example : scrape_target host device 2 if_module ≢ out_of_fuel
scrape_target_total_example = scrape_target_total host device 2 if_module

evaluate_filters-Combined_example : Combined host device (up_only ∷ []) start filtered
evaluate_filters-Combined_example =
    evaluate_filters-Combined host device (up_only ∷ []) start filters_run

allowed_clear : clear_of (target_index (text "1.2") (text "7")) ((text "1.3", []) ∷ []) ≡ true
unfolding has_prefix text
allowed_clear = refl

allowed_listed : contains (text "7" ∷ []) (text "7") ≡ true
unfolding equal text
allowed_listed = refl

apply_allowed-allowed_example :
    contains
      (apply_allowed ((text "1.2", text "7" ∷ []) ∷ (text "1.3", []) ∷ []) [])
      (target_index (text "1.2") (text "7"))
    ≡ true
apply_allowed-allowed_example =
    apply_allowed-allowed (text "1.2") (text "7" ∷ []) ((text "1.3", []) ∷ []) [] (text "7")
      allowed_listed allowed_clear

-- With the targets 2.2.1.10 and 2.2.1.1 the allowed index 7 of the first is not asked for.
apply_allowed-shadows_example :
    contains
      (apply_allowed
        ((text "2.2.1.1" ++ (b'0' ∷ []), text "7" ∷ []) ∷ (text "2.2.1.1", text "7" ∷ []) ∷ [])
        [])
      (target_index (text "2.2.1.1" ++ (b'0' ∷ [])) (text "7"))
    ≡ false
apply_allowed-shadows_example =
    apply_allowed-shadows (text "2.2.1.1") b'0' [] (text "7" ∷ []) (text "7" ∷ []) [] (text "7")
      (omega arith)
