-- ===== src/Collector/Sample/Distinct.antt =====
-- The label names of the samples that `pduToSamples` makes.
use snmp_exporter.Common.{
  ◌≡◌, Bool, true, false, List, [], ◌∷◌, Option, some, none, >>=-eq-some, Bool-cases, inl, inr,
  if_ind, map, All, All-append,
}
use mathlib.Core.Path.{subst}
use snmp_exporter.Common.Text.{Bytes}
use snmp_exporter.Common.Map.{has_key, Distinct, append-Distinct}
use snmp_exporter.Common.Int.{ℤ}
use snmp_exporter.Collector.Oid.{Oid}
use snmp_exporter.Collector.Pdu.{Pdu, Host, pdu_value_as_string}
use snmp_exporter.Collector.Number.{
  Parsed, parsed, parse_error, get_pdu_value, parse_date_and_time_with_pattern,
}
use snmp_exporter.Collector.Labels.{OidToPdu, enum_text, indexes_to_labels}
use snmp_exporter.Collector.Labels.Distinct.{indexes_to_labels-Distinct}
use snmp_exporter.Collector.Sample.{
  Metric, RegexpExtract, ValueType, Sample, const_metric, invalid_metric, Shape, numeric,
  date_and_time, with_pattern, ntp_time_stamp, as_info, as_state_set, as_bits, as_string, shape_of,
  LabelPairs, new_metric, extract_or, text_samples, first_extract, apply_regex_extracts,
  enum_as_info, value_samples, string_type, string_labels, string_samples, shape_samples,
  pdu_to_samples,
}

-- The label names of a metric are distinct.
abbrev pub Labelled : {F64 : Type 0} → Sample F64 → Type 0
Labelled (const_metric name t v labels) = Distinct labels
Labelled invalid_metric = Unit

abbrev Samples : {F64 : Type 0} → Option (List (Sample F64)) → Type 0
Samples none = Unit
Samples (some samples) = All Labelled samples

abbrev Pairs : Option LabelPairs → Type 0
Pairs none = Unit
Pairs (some labels) = Distinct labels

-- The shapes that add a label of the metric's name without looking for it.
unfoldable pub adds_name : Shape → Bool
adds_name as_state_set = true
adds_name as_bits = true
adds_name _ = false

module _ {F32 F64 : Type 0} (host : Host F32 F64) where
  new_metric-Labelled :
      (name : Bytes) (t : ValueType) (v : F64) (labels : LabelPairs)
      → Distinct labels
      → Labelled (new_metric host name t v labels)
  unfolding new_metric
  new_metric-Labelled name t v labels d =
      let ok = host.accepts_metric name (map (λ e. e.0) labels) (map (λ e. e.1) labels) in
      if_ind (Labelled {F64 = F64}) ok {x = const_metric name t v labels} {y = invalid_metric} d tt

  value_samples-Labelled :
      (metric : Metric F64) (t : ValueType) (labels : LabelPairs) (v : Parsed F64)
      → Distinct labels
      → All Labelled (value_samples host metric t labels v)
  unfolding value_samples
  value_samples-Labelled metric t labels parse_error d = tt
  value_samples-Labelled metric t labels (parsed v) d =
      (new_metric-Labelled metric.name t _ labels d, tt)

  enum_as_info-Labelled :
      (metric : Metric F64) (z : ℤ) (labels : LabelPairs)
      → Distinct labels
      → All Labelled (enum_as_info host metric z labels)
  unfolding enum_as_info
  enum_as_info-Labelled metric z labels d = elim (Bool-cases (has_key labels metric.name)) [
    | inl e ↦ rw e tt
    | inr e ↦
        let d' = append-Distinct metric.name (enum_text metric.enum_values z) labels e d in
        rw e (new_metric-Labelled _ _ _ _ d', tt)
  ]

  extract_or-Labelled :
      (metric : Metric F64) (name : Bytes) (labels : LabelPairs) (rest : List (Sample F64))
      → (v : Option F64) → Distinct labels
      → All Labelled rest
      → All Labelled (extract_or host metric name labels rest v)
  unfolding extract_or
  extract_or-Labelled metric name labels rest none d r = r
  extract_or-Labelled metric name labels rest (some v) d r =
      (new_metric-Labelled _ _ _ labels d, tt)

  first_extract-Labelled :
      (metric : Metric F64) (name value : Bytes) (labels : LabelPairs)
      → (extracts : List RegexpExtract) → Distinct labels
      → All Labelled (first_extract host metric name value labels extracts)
  unfolding first_extract
  first_extract-Labelled metric name value labels [] d = tt
  first_extract-Labelled metric name value labels (e ∷ extracts) d =
      extract_or-Labelled metric name labels _ _ d
        (first_extract-Labelled metric name value labels extracts d)

  apply_regex_extracts-Labelled :
      (metric : Metric F64) (value : Bytes) (labels : LabelPairs)
      → (m : List (Bytes × List RegexpExtract)) → Distinct labels
      → All Labelled (apply_regex_extracts host metric value labels m)
  unfolding apply_regex_extracts
  apply_regex_extracts-Labelled metric value labels [] d = tt
  apply_regex_extracts-Labelled metric value labels ((name, extracts) ∷ m) d =
      All-append Labelled _ _ (first_extract-Labelled metric name value labels extracts d)
        (apply_regex_extracts-Labelled metric value labels m d)

  module _ (wrap_counters : Bool) (oid_to_pdu : OidToPdu host wrap_counters) where
    string_labels-Distinct :
        (metric : Metric F64) (pdu : Pdu F32 F64) (t : Bytes) (labels ls : LabelPairs)
        → string_labels host wrap_counters oid_to_pdu metric pdu t labels ≡ some ls
        → Distinct labels
        → Distinct ls
    unfolding string_labels
    string_labels-Distinct metric pdu t labels ls e d =
        elim (Bool-cases (has_key labels metric.name)) [
          | inl p ↦ subst Pairs (rw (string_labels, p) at e) d
          | inr p ↦
              let (str, es, e1) =
                >>=-eq-some (pdu_value_as_string host pdu t metric.display_hint) _
                  (rw (string_labels, p) at e) in
              subst Pairs e1 (append-Distinct metric.name str labels p d)
        ]

    text_samples-Labelled :
        (metric : Metric F64) (pdu : Pdu F32 F64) (t : Bytes) (labels : LabelPairs)
        → (extracts : List (Bytes × List RegexpExtract)) (samples : List (Sample F64))
        → text_samples host wrap_counters oid_to_pdu metric pdu t labels extracts ≡ some samples
        → Distinct labels
        → All Labelled samples
    unfolding text_samples
    text_samples-Labelled metric pdu t labels [] samples e d =
        let (ls, el, e1) =
          >>=-eq-some (string_labels host wrap_counters oid_to_pdu metric pdu t labels) _ e in
        subst Samples e1 (
          value_samples-Labelled metric _ ls _ (string_labels-Distinct metric pdu t labels ls el d))
    text_samples-Labelled metric pdu t labels (x ∷ extracts) samples e d =
        let (str, es, e1) = >>=-eq-some (pdu_value_as_string host pdu t metric.display_hint) _ e in
        subst Samples e1 (apply_regex_extracts-Labelled metric str labels (x ∷ extracts) d)

    shape_samples-Labelled :
        (metric : Metric F64) (oids : Oid) (pdu : Pdu F32 F64) (labels : LabelPairs) (value : F64)
        → (shape : Shape) (samples : List (Sample F64))
        → shape_samples host wrap_counters oid_to_pdu metric oids pdu labels value shape
          ≡ some samples
        → adds_name shape ≡ false
        → Distinct labels
        → All Labelled samples
    unfolding shape_samples string_samples adds_name
    shape_samples-Labelled metric oids pdu labels value (numeric t) samples e a d =
        subst Samples e (value_samples-Labelled metric _ labels _ d)
    shape_samples-Labelled metric oids pdu labels value date_and_time samples e a d =
        subst Samples e (value_samples-Labelled metric _ labels _ d)
    shape_samples-Labelled metric oids pdu labels value ntp_time_stamp samples e a d =
        subst Samples e (value_samples-Labelled metric _ labels _ d)
    shape_samples-Labelled metric oids pdu labels value with_pattern samples e a d =
        let (v, ev, e1) =
          >>=-eq-some (parse_date_and_time_with_pattern host metric.date_time_pattern pdu) _ e in
        subst Samples e1 (value_samples-Labelled metric _ labels v d)
    shape_samples-Labelled metric oids pdu labels value as_info samples e a d =
        subst Samples e (enum_as_info-Labelled metric _ labels d)
    shape_samples-Labelled metric oids pdu labels value as_string samples e a d =
        let (t, et, e1) = >>=-eq-some (string_type host wrap_counters oid_to_pdu metric oids) _ e in
        text_samples-Labelled metric pdu t labels _ samples e1 d
    shape_samples-Labelled metric oids pdu labels value as_state_set samples e a d = cc
    shape_samples-Labelled metric oids pdu labels value as_bits samples e a d = cc

    -- Of a variable of a metric whose type is neither "EnumAsStateSet" nor "Bits", every metric that
    -- `pduToSamples` makes has distinct label names.
    pub pdu_to_samples-Labelled :
        (oids : Oid) (pdu : Pdu F32 F64) (metric : Metric F64) (samples : List (Sample F64))
        → pdu_to_samples host wrap_counters oid_to_pdu oids pdu metric ≡ some samples
        → adds_name (shape_of metric.type_) ≡ false
        → All Labelled samples
    unfolding pdu_to_samples
    pdu_to_samples-Labelled oids pdu metric samples e a =
        let (labels, el, e1) =
          >>=-eq-some
            (indexes_to_labels host wrap_counters oids metric.indexes metric.lookups oid_to_pdu) _
            e in
        let (v, ev, e2) = >>=-eq-some (get_pdu_value host wrap_counters pdu) _ e1 in
        shape_samples-Labelled metric oids pdu labels v _ samples e2 a
          (indexes_to_labels-Distinct host wrap_counters oid_to_pdu oids _ _ labels el)
