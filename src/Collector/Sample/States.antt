-- ===== src/Collector/Sample/States.antt =====
-- The samples of "EnumAsStateSet".
use snmp_exporter.Common.{
  ◌≡◌, refl, sym, ap, false, not, List, [], ◌∷◌, map, keep, arith, if◌then◌else◌, some, if_ind,
  Bool-cases, inl, inr,
}
use mathlib.Core.Option.{some-injective}
use mathlib.Core.List.{Mem, mem-cons_self, mem-cons_of_mem}
use snmp_exporter.Common.Int.{ℤ}
use snmp_exporter.Common.Text.{Bytes}
use snmp_exporter.Collector.Index.{EnumMap, int_eq, int_eq_iff, enum_value}
use snmp_exporter.Collector.Pdu.{Host}
use snmp_exporter.Collector.Labels.{enum_text}
use snmp_exporter.Collector.Sample.{
  Metric, Sample, LabelPairs, state_sample, other_states, enum_as_state_set, one, nil,
}

enum_text-found :
    (enums : EnumMap) (z : ℤ) (v : Bytes) → enum_value enums z ≡ some v → enum_text enums z ≡ v
unfolding enum_text
enum_text-found enums z v e = ground arith

module _ {F32 F64 : Type 0} (host : Host F32 F64) where
  other_states-has :
      (metric : Metric F64) (value k : ℤ) (v : Bytes) (labels : LabelPairs) (enums : EnumMap)
      → enum_value enums k ≡ some v
      → int_eq k value ≡ false
      → Mem
          (state_sample host metric labels (nil host) v)
          (other_states host metric value labels enums)
  unfolding enum_value other_states
  other_states-has metric value k v labels [] e n = cc
  other_states-has metric value k v labels ((j, w) ∷ enums) e n = elim (Bool-cases (int_eq j k)) [
    | inl p ↦
        let same : j ≡ k = (int_eq_iff j k).0 p in
        let same_text : some w ≡ some v = rw p at e in
        rw (same, n, sym (some-injective w v same_text)) mem-cons_self
    | inr p ↦
        let rest = other_states-has metric value k v labels enums (rw p at e) n in
        if_ind (Mem _) (int_eq j value) rest (mem-cons_of_mem _ rest)
  ]

  has_state :
      (metric : Metric F64) (value k : ℤ) (v : Bytes) (labels : LabelPairs)
      → enum_value metric.enum_values k ≡ some v
      → Mem
          (state_sample host metric labels (if int_eq k value then one host else nil host) v)
          (enum_as_state_set host metric value labels)
  unfolding enum_as_state_set
  has_state metric value k v labels e = elim (Bool-cases (int_eq k value)) [
    | inl p ↦
        let same : k ≡ value = (int_eq_iff k value).0 p in
        let shown : enum_text metric.enum_values value ≡ v =
          enum_text-found metric.enum_values value v (rw same at e) in
        rw (p, shown) mem-cons_self
    | inr p ↦
        rw p (mem-cons_of_mem _ (other_states-has metric value k v labels metric.enum_values e p))
  ]

  -- Every entry of the enum but those of the current state, with the value 0.
  abbrev pub others : Metric F64 → ℤ → LabelPairs → EnumMap → List (Sample F64)
  others metric value labels enums =
      map (λ s. state_sample host metric labels (nil host) s.1)
        (keep (λ s. not (int_eq s.0 value)) enums)

  other_states-others :
      (metric : Metric F64) (value : ℤ) (labels : LabelPairs) (enums : EnumMap)
      → other_states host metric value labels enums ≡ others metric value labels enums
  unfolding other_states
  other_states-others metric value labels [] = refl
  other_states-others metric value labels ((k, v) ∷ enums) =
      ground (arith, other_states-others metric value labels enums)

  -- Every state of the enum has its sample: 1 for the current state, 0 for the others. There are no
  -- samples but one with 1, and one with 0 for each entry of another state, in the order of the enum.
  pub enum_as_state_set-states :
      (metric : Metric F64) (value k : ℤ) (v : Bytes) (labels : LabelPairs)
      → enum_value metric.enum_values k ≡ some v
      → Mem
          (state_sample host metric labels (if int_eq k value then one host else nil host) v)
          (enum_as_state_set host metric value labels)
        × (enum_as_state_set host metric value labels
            ≡ state_sample host metric labels (one host) (enum_text metric.enum_values value)
              ∷ others metric value labels metric.enum_values)
  enum_as_state_set-states metric value k v labels e = (
    has_state metric value k v labels e,
    unfold enum_as_state_set in
        ap
          (λ l. state_sample host metric labels (one host) (enum_text metric.enum_values value) ∷ l)
          (other_states-others metric value labels metric.enum_values),
  )
