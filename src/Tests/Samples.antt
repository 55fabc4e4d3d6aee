-- ===== src/Tests/Samples.antt =====
-- The theorems on the samples of a variable at inputs.
use snmp_exporter.Common.{Option}
use snmp_exporter.Common.{◌≡◌, refl, true, false, List, [], ◌∷◌, map, none, some, if◌then◌else◌}
use mathlib.Core.List.{Mem}
use snmp_exporter.Common.Text.{Bytes, text, equal}
use snmp_exporter.Common.Utf8.{to_valid_utf8}
use snmp_exporter.Common.Decimal.{itoa, format_uint}
use snmp_exporter.Common.Map.{lookup, insert, delete}
use snmp_exporter.Common.Int.{ℤ, pos}
use snmp_exporter.Tests.Collector.{run_index}
use snmp_exporter.Common.{any, length, ◌++◌}
use snmp_exporter.Collector.Labels.{enum_text, Labels}
use snmp_exporter.Collector.Labels.Row.{no_labels, index_parts, label_is, flatten, lookup_oid-row}
use snmp_exporter.Collector.Index.{combined_type_mapping}
use snmp_exporter.Collector.Pdu.{octet_type, octets_as_string}
use snmp_exporter.Collector.Pdu.Panics.{is_some, is_index_type, octets_as_string-is_some}
use snmp_exporter.Collector.Oid.{Oid, split_oid}
use snmp_exporter.Collector.Oid.{list_to_oid, list_to_oid_rest}
use snmp_exporter.Collector.Index.{enum_value, int_eq}
use snmp_exporter.Collector.Pdu.{
  Pdu, Value, int, uint, string, bytes, Host, other_type, pdu_value_as_string,
}
use snmp_exporter.Collector.Number.{uint64_of, int64_of, get_pdu_value}
use snmp_exporter.Collector.Labels.{
  IndexConfig, Lookup, OidToPdu, read_indexes, label_oid, lookup_oid, lookup_type, lookup_text,
  found_lookup, look_at, look_up, do_lookups, indexes_to_labels,
}
use snmp_exporter.Collector.Sample.{
  Metric, Sample, const_metric, gauge, shape_of, state_sample, one, nil, new_metric, scaled,
  value_samples, string_type, string_labels, text_samples, string_samples, shape_samples,
  enum_as_state_set, pdu_to_samples, bits,
}
use snmp_exporter.Collector.Sample.Distinct.{adds_name}
use snmp_exporter.Collector.Sample.States.{others, enum_as_state_set-states}
use snmp_exporter.Collector.Sample.Bits.{named_sample, bits-lem}

-- A host whose floats are integers.
abbrev pub big_int : Value ℤ ℤ → ℤ
big_int (int z) = z
big_int (uint n) = pos n
big_int _ = pos 0

abbrev pub host : Host ℤ ℤ
host = record {
  f32_text = itoa;
  f64_text = itoa;
  f64_parse = λ s. none;
  f64_of_f32 = λ f. f;
  f64_of_int = λ z. z;
  f64_of_uint = pos;
  f64_to_int = λ z. z;
  f64_is_zero = int_eq (pos 0);
  f64_mul = λ a b. a;
  f64_add = λ a b. a;
  match_string = λ p s. some (equal p s);
  expand_match = λ p t s. none;
  to_big_int = big_int;
  accepts_metric = λ n ls vs. true;
  parse_zone = λ s. none;
  date_unix = λ fields zone. zone;
  pattern_unix = λ s p. none;
}

abbrev pub if_index : IndexConfig
if_index = record {
  labelname = text "ifIndex";
  type_ = text "gauge";
  fixed_size = pos 0;
  implied = false;
  enum_values = [];
}

abbrev pub if_descr : Lookup
if_descr = record {
  labels = text "ifIndex" ∷ [];
  labelname = text "ifDescr";
  oid = text "1.2.2";
  type_ = text "DisplayString";
  display_hint = [];
  enum_values = [];
}

abbrev pub metric_of : Bytes → Metric ℤ
metric_of t = record {
  name = text "ifAlias";
  oid = text "1.2.18";
  type_ = t;
  help = [];
  indexes = if_index ∷ [];
  lookups = if_descr ∷ [];
  regexp_extracts = [];
  date_time_pattern = [];
  enum_values = (pos 0, text "up") ∷ (pos 9, text "down") ∷ [];
  offset = pos 0;
  scale = pos 0;
  display_hint = [];
}

abbrev pub variable : Bytes → Bytes → Pdu ℤ ℤ
variable name v = record { name = name; typ = other_type; value = string v }

abbrev oid_to_pdu : OidToPdu host false
oid_to_pdu = (text "1.2.2.7", variable (text "1.2.2.7") (text "eth0")) ∷ []

abbrev pub alias : Metric ℤ
alias = metric_of (text "DisplayString")

abbrev pub alias_labels : List (Bytes × Bytes)
alias_labels =
    (text "ifIndex", text "7")
    ∷ (text "ifDescr", text "eth0")
    ∷ (text "ifAlias", text "uplink")
    ∷ []

abbrev alias_samples : List (Sample ℤ)
alias_samples = const_metric (text "ifAlias") gauge (pos 1) alias_labels ∷ []

-- `pduToSamples`, unfolded to the end.
unfoldable pub run_samples :
    OidToPdu host false → List ℤ → Pdu ℤ ℤ → Metric ℤ → Option (List (Sample ℤ))
unfolding pdu_to_samples shape_samples shape_of string_samples text_samples string_type
    string_labels value_samples scaled new_metric indexes_to_labels read_indexes do_lookups look_up
    look_at found_lookup lookup_type lookup_text lookup_oid label_oid get_pdu_value int64_of
    uint64_of pdu_value_as_string run_index insert delete lookup to_valid_utf8 list_to_oid
    list_to_oid_rest itoa format_uint text equal
run_samples m oids pdu metric = pdu_to_samples host false m oids pdu metric

alias_run :
    pdu_to_samples host false oid_to_pdu
      (pos 7 ∷ [])
      (variable (text "1.2.18.7") (text "uplink"))
      alias
    ≡ some alias_samples
unfolding run_samples
alias_run = refl

pub alias_type : adds_name (shape_of alias.type_) ≡ false
unfolding adds_name shape_of equal text
alias_type = refl

alias_down : enum_value alias.enum_values (pos 9) ≡ some (text "down")
unfolding enum_value int_eq
alias_down = refl

enum_as_state_set-states_example :
    Mem
      (state_sample host alias []
        (if int_eq (pos 9) (pos 0) then one host else nil host)
        (text "down"))
      (enum_as_state_set host alias (pos 0) [])
    × (enum_as_state_set host alias (pos 0) []
        ≡ state_sample host alias [] (one host) (enum_text alias.enum_values (pos 0))
          ∷ others host alias (pos 0) [] alias.enum_values)
enum_as_state_set-states_example =
    enum_as_state_set-states host alias (pos 0) (pos 9) (text "down") [] alias_down

bits-lem_example :
    bits host alias (bytes (128 ∷ 64 ∷ [])) []
    ≡ some (map (named_sample host alias (128 ∷ 64 ∷ []) []) alias.enum_values)
bits-lem_example = bits-lem host alias (128 ∷ 64 ∷ []) [] (tt, (tt, tt))

-- A row of a table with an interface and an IPv4 address as its indexes.
abbrev address_index : IndexConfig
address_index = record {
  labelname = text "address";
  type_ = text "InetAddressIPv4";
  fixed_size = pos 0;
  implied = false;
  enum_values = [];
}

abbrev row : Oid
row = pos 7 ∷ pos 10 ∷ pos 0 ∷ pos 0 ∷ pos 1 ∷ []

abbrev row_labels : Labels
row_labels = record {
  labels = (text "ifIndex", text "7") ∷ (text "address", text "10.0.0.1") ∷ [];
  label_oids =
      (text "ifIndex", pos 7 ∷ []) ∷ (text "address", pos 10 ∷ pos 0 ∷ pos 0 ∷ pos 1 ∷ []) ∷ [];
}

abbrev row_parts : List Oid
row_parts = (pos 7 ∷ []) ∷ (pos 10 ∷ pos 0 ∷ pos 0 ∷ pos 1 ∷ []) ∷ []

row_run : read_indexes row (if_index ∷ address_index ∷ []) no_labels ≡ some row_labels
unfolding read_indexes run_index insert to_valid_utf8 text equal
row_run = refl

row_parts_run : index_parts row (if_index ∷ address_index ∷ []) ≡ some row_parts
unfolding index_parts run_index
row_parts_run = refl

row_distinct : any (label_is (text "ifIndex")) (address_index ∷ []) ≡ false
unfolding text equal
row_distinct = refl

lookup_oid-row_example :
    lookup_oid row_labels.label_oids (text "1.4") (text "ifIndex" ∷ text "address" ∷ [])
    ≡ text "1.4" ++ list_to_oid_rest (split_oid row (length (flatten row_parts))).0
lookup_oid-row_example =
    lookup_oid-row row (if_index ∷ address_index ∷ []) row_labels row_parts (text "1.4") row_run
      row_parts_run (row_distinct, (refl, tt)) (tt, (tt, tt))

abbrev date : Bytes
date = 7 ∷ 228 ∷ 2 ∷ 29 ∷ 12 ∷ 0 ∷ 0 ∷ 0 ∷ []

date_simple : combined_type_mapping (octet_type (text "DateAndTime")) ≡ none
unfolding combined_type_mapping octet_type equal text
date_simple = refl

octets_as_string-is_some_example :
    is_some (octets_as_string (text "DateAndTime") date)
    ≡ is_index_type (octet_type (text "DateAndTime"))
octets_as_string-is_some_example = octets_as_string-is_some (text "DateAndTime") date date_simple

-- The type of a date has no case, so bytes of that type make the code panic.
date_panics : is_index_type (octet_type (text "DateAndTime")) ≡ false
unfolding is_index_type octet_type equal text
date_panics = refl
