-- ===== src/Collector/Sample.antt =====
-- The samples of a variable: `pduToSamples`, `applyRegexExtracts`, `enumAsInfo`,
-- `enumAsStateSet` and `bits` of collector/collector.go. `none` is a panic. Where the code ranges
-- over a map, the list goes in the order of the map's entries.
pub mod Distinct
pub mod States
pub mod Bits
use snmp_exporter.Common.{
  ℕ, zero, suc, ◌+◌, ◌-◌, ◌*◌, ◌/◌, ◌%◌, ◌^◌, ◌≡◌, refl, Bool, true, false, List, [], ◌∷◌, ◌++◌,
  ltb, ◌==◌, ◌&&◌, ◌||◌, if◌then◌else◌, Option, some, none, length, map, any, ◌>>=◌,
}
use snmp_exporter.Common.Int.{ℤ, pos, negsuc}
use snmp_exporter.Common.Text.{Bytes, text, equal}
use snmp_exporter.Common.Map.{has_key}
use snmp_exporter.Collector.Oid.{Oid, list_to_oid, get_prev_oid}
use snmp_exporter.Collector.Index.{EnumMap, int_eq, enum_value, combined_type_mapping}
use snmp_exporter.Collector.Pdu.{Pdu, Value, bytes, Host, pdu_value_as_string}
use snmp_exporter.Collector.Number.{
  Parsed, parsed, parse_error, get_pdu_value, parse_date_and_time, parse_date_and_time_with_pattern,
  parse_ntp_timestamp,
}
use snmp_exporter.Collector.Labels.{
  IndexConfig, Lookup, OidToPdu, enum_text, prev_value, indexes_to_labels,
}

-- `config.RegexpExtract`: the template and the pattern.
pub record RegexpExtract : Type 0 where
  pub value : Bytes
  pub regex : Bytes

-- `config.Metric`.
pub record Metric (F64 : Type 0) : Type 0 where
  pub name : Bytes
  pub oid : Bytes
  pub type_ : Bytes
  pub help : Bytes
  pub indexes : List IndexConfig
  pub lookups : List Lookup
  pub regexp_extracts : List (Bytes × List RegexpExtract)
  pub date_time_pattern : Bytes
  pub enum_values : EnumMap
  pub offset : F64
  pub scale : F64
  pub display_hint : Bytes

pub data ValueType : Type 0 where
  counter gauge : ValueType

-- What is sent to Prometheus: a metric with its labels, or the error in its place.
pub data Sample (F64 : Type 0) : Type 0 where
  const_metric : Bytes → ValueType → F64 → List (Bytes × Bytes) → Sample F64
  invalid_metric : Sample F64

-- `bytes[i]` within the length.
unfoldable pub byte_at : Bytes → ℕ → ℕ
byte_at [] i = 0
byte_at (b ∷ bs) zero = b
byte_at (b ∷ bs) (suc i) = byte_at bs i

-- `bytes[k/8] & (128 >> (k % 8)) != 0` within the bytes, and false behind them; `none` for a
-- negative number, which is an index out of range or a negative shift.
unfoldable pub bit_set : Bytes → ℤ → Option Bool
bit_set bs (pos k) =
    some (if ltb k (length bs * 8) then byte_at bs (k / 8) / 2 ^ (7 - k % 8) % 2 == 1 else false)
bit_set bs (negsuc k) = none

-- The rest of the types show a string.
pub data Shape : Type 0 where
  numeric : ValueType → Shape
  date_and_time with_pattern ntp_time_stamp as_info as_state_set as_bits as_string : Shape

unfoldable pub shape_of : Bytes → Shape
shape_of t =
    if equal t (text "counter")
    then numeric counter
    else if equal t (text "gauge")
    then numeric gauge
    else if equal t (text "Float") || equal t (text "Double")
    then numeric gauge
    else if equal t (text "DateAndTime")
    then date_and_time
    else if equal t (text "ParseDateAndTime")
    then with_pattern
    else if equal t (text "NTPTimeStamp")
    then ntp_time_stamp
    else if equal t (text "EnumAsInfo")
    then as_info
    else if equal t (text "EnumAsStateSet")
    then as_state_set
    else if equal t (text "Bits")
    then as_bits
    else as_string

abbrev pub LabelPairs : Type 0
LabelPairs = List (Bytes × Bytes)

module _ {F32 F64 : Type 0} (host : Host F32 F64) where
  -- `NewConstMetric`, and the invalid metric that takes its place.
  unfoldable pub new_metric : Bytes → ValueType → F64 → LabelPairs → Sample F64
  new_metric name t value labels =
      if host.accepts_metric name (map (λ e. e.0) labels) (map (λ e. e.1) labels)
      then const_metric name t value labels
      else invalid_metric

  unfoldable pub scaled : Metric F64 → F64 → F64
  scaled metric v =
      host.f64_add (if host.f64_is_zero metric.scale then v else host.f64_mul v metric.scale)
        metric.offset

  abbrev pub one : F64
  one = host.f64_of_int (pos 1)

  abbrev pub nil : F64
  nil = host.f64_of_int (pos 0)

  -- The number that an extract reads; `none` for no match or no number.
  unfoldable pub extracted : RegexpExtract → Bytes → Option F64
  extracted e value = do res ← host.expand_match e.regex e.value value; host.f64_parse res

  unfoldable pub extract_or :
      Metric F64 → Bytes → LabelPairs → List (Sample F64) → Option F64 → List (Sample F64)
  extract_or metric name labels rest none = rest
  extract_or metric name labels rest (some v) =
      new_metric (metric.name ++ name) gauge (scaled metric v) labels ∷ []

  -- The first extract of a name that reads a number; the later ones are not tried.
  unfoldable pub first_extract :
      Metric F64 → Bytes → Bytes → LabelPairs → List RegexpExtract → List (Sample F64)
  first_extract metric name value labels [] = []
  first_extract metric name value labels (e ∷ extracts) =
      let rest = first_extract metric name value labels extracts in
      extract_or metric name labels rest (extracted e value)

  -- `applyRegexExtracts`.
  unfoldable pub apply_regex_extracts :
      Metric F64 → Bytes → LabelPairs → List (Bytes × List RegexpExtract) → List (Sample F64)
  apply_regex_extracts metric value labels [] = []
  apply_regex_extracts metric value labels ((name, extracts) ∷ m) =
      first_extract metric name value labels extracts ++ apply_regex_extracts metric value labels m

  -- `enumAsInfo`.
  unfoldable pub enum_as_info : Metric F64 → ℤ → LabelPairs → List (Sample F64)
  enum_as_info metric value labels =
      if has_key labels metric.name
      then []
      else new_metric (metric.name ++ text "_info") gauge one
          (labels ++ ((metric.name, enum_text metric.enum_values value) ∷ []))
        ∷ []

  abbrev pub state_sample : Metric F64 → LabelPairs → F64 → Bytes → Sample F64
  state_sample metric labels v state =
      new_metric metric.name gauge v (labels ++ ((metric.name, state) ∷ []))

  unfoldable pub other_states : Metric F64 → ℤ → LabelPairs → EnumMap → List (Sample F64)
  other_states metric value labels [] = []
  other_states metric value labels ((k, v) ∷ enums) =
      if int_eq k value
      then other_states metric value labels enums
      else state_sample metric labels nil v ∷ other_states metric value labels enums

  -- `enumAsStateSet`.
  unfoldable pub enum_as_state_set : Metric F64 → ℤ → LabelPairs → List (Sample F64)
  enum_as_state_set metric value labels =
      state_sample metric labels one (enum_text metric.enum_values value)
      ∷ other_states metric value labels metric.enum_values

  unfoldable pub bit_samples :
      Metric F64 → Bytes → LabelPairs → EnumMap → Option (List (Sample F64))
  bit_samples metric bs labels [] = some []
  bit_samples metric bs labels ((k, v) ∷ enums) = do
    set ← bit_set bs k
    rest ← bit_samples metric bs labels enums
    some (state_sample metric labels (if set then one else nil) v ∷ rest)

  -- `bits`.
  unfoldable pub bits : Metric F64 → Value F32 F64 → LabelPairs → Option (List (Sample F64))
  bits metric value labels = elim value [
    | bytes bs ↦ bit_samples metric bs labels metric.enum_values
    | _ ↦ some (invalid_metric ∷ [])
  ]

  -- A sample of a value that is scaled, or nothing after a parse error.
  unfoldable pub value_samples :
      Metric F64 → ValueType → LabelPairs → Parsed F64 → List (Sample F64)
  value_samples metric t labels parse_error = []
  value_samples metric t labels (parsed v) = new_metric metric.name t (scaled metric v) labels ∷ []

  module _ (wrap_counters : Bool) (oid_to_pdu : OidToPdu host wrap_counters) where
    -- The type of a string: the sub type of a combined type, or "OctetString" without one.
    unfoldable pub string_type : Metric F64 → Oid → Option Bytes
    string_type metric oids = elim (combined_type_mapping metric.type_) [
      | none ↦ some metric.type_
      | some mapping ↦ do
        val ←
            prev_value host wrap_counters oid_to_pdu
              (get_prev_oid metric.oid ++ (b'.' ∷ list_to_oid oids))
        some (elim val [
          | none ↦ text "OctetString"
          | some z ↦ elim (enum_value mapping z) [ some ty ↦ ty | none ↦ text "OctetString" ]
        ])
    ]

    -- The labels of a string: its text is a label of the metric's name, unless that is there.
    unfoldable pub string_labels : Metric F64 → Pdu F32 F64 → Bytes → LabelPairs → Option LabelPairs
    string_labels metric pdu t labels = if has_key labels metric.name then some labels else do
      str ← pdu_value_as_string host pdu t metric.display_hint
      some (labels ++ ((metric.name, str) ∷ []))

    unfoldable pub text_samples :
        Metric F64
        → Pdu F32 F64
        → Bytes
        → LabelPairs
        → List (Bytes × List RegexpExtract)
        → Option (List (Sample F64))
    text_samples metric pdu t labels [] = do
      ls ← string_labels metric pdu t labels
      some (value_samples metric gauge ls (parsed one))
    text_samples metric pdu t labels (e ∷ extracts) = do
      str ← pdu_value_as_string host pdu t metric.display_hint
      some (apply_regex_extracts metric str labels (e ∷ extracts))

    unfoldable pub string_samples :
        Metric F64 → Oid → Pdu F32 F64 → LabelPairs → Option (List (Sample F64))
    string_samples metric oids pdu labels = do
      t ← string_type metric oids
      text_samples metric pdu t labels metric.regexp_extracts

    unfoldable pub shape_samples :
        Metric F64 → Oid → Pdu F32 F64 → LabelPairs → F64 → Shape → Option (List (Sample F64))
    shape_samples metric oids pdu labels value (numeric t) =
        some (value_samples metric t labels (parsed value))
    shape_samples metric oids pdu labels value date_and_time =
        some (value_samples metric gauge labels (parse_date_and_time host pdu))
    shape_samples metric oids pdu labels value with_pattern = do
      v ← parse_date_and_time_with_pattern host metric.date_time_pattern pdu
      some (value_samples metric gauge labels v)
    shape_samples metric oids pdu labels value ntp_time_stamp =
        some (value_samples metric gauge labels (parse_ntp_timestamp host pdu))
    shape_samples metric oids pdu labels value as_info =
        some (enum_as_info metric (host.f64_to_int value) labels)
    shape_samples metric oids pdu labels value as_state_set =
        some (enum_as_state_set metric (host.f64_to_int value) labels)
    shape_samples metric oids pdu labels value as_bits = bits metric pdu.value labels
    shape_samples metric oids pdu labels value as_string = string_samples metric oids pdu labels

    -- `pduToSamples`.
    unfoldable pub pdu_to_samples : Oid → Pdu F32 F64 → Metric F64 → Option (List (Sample F64))
    pdu_to_samples oids pdu metric = do
      labels ← indexes_to_labels host wrap_counters oids metric.indexes metric.lookups oid_to_pdu
      value ← get_pdu_value host wrap_counters pdu
      shape_samples metric oids pdu labels value (shape_of metric.type_)
