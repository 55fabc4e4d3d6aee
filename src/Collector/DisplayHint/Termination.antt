-- ===== src/Collector/DisplayHint/Termination.antt =====
-- The DISPLAY-HINT loop ends: each round reads on in the hint, or uses up data.
use snmp_exporter.Common.{
  ℕ, zero, suc, ◌+◌, ◌<◌, ◌≡◌, ◌≢◌, ap, ◌∙◌, true, [], ◌∷◌, ◌++◌, arith, some, length, >>=-eq-some,
  Bool-cases, Option-cases, inl, inr, ◌⊎◌,
}
use snmp_exporter.Common.Text.{Bytes}
use snmp_exporter.Collector.DisplayHint.{
  Spec, State, out_of_fuel, parse_spec, apply_spec, consumes, spec_start, step, run, has_more,
  initial, apply_display_hint,
}
use snmp_exporter.Collector.DisplayHint.Progress.{
  length-parse_spec, length-apply_spec, apply_spec-consumes,
}

-- What `lastSpecStart` and `lastSpecConsumesByte` remember: the specification that ends where the
-- hint is read on.
abbrev Remembers : State → Type 0
Remembers s =
    s.last_spec_consumes ≡ true
    → (spec : Spec) × (parse_spec s.last_spec_start ≡ some (spec, s.hint)) × (consumes spec ≡ true)

abbrev size : State → ℕ
size s = length s.hint + length s.input

-- The parts of a round.
step_parts :
    (s : State) {s' : State}
    → step s ≡ some s'
    → (start : Bytes) × (parsed : Spec × Bytes) × (applied : Bytes × Bytes) × (spec_start s
        ≡ some start)
      × (parse_spec start ≡ some parsed)
      × (apply_spec parsed.0 s.input ≡ some applied)
      × (s' ≡ record {
        hint = parsed.1;
        input = applied.1;
        last_spec_start = start;
        last_spec_consumes = consumes parsed.0;
        result = s.result ++ applied.0;
      })
unfolding step
step_parts s e =
    let (start, es, e1) = >>=-eq-some (spec_start s) _ e in
    let (parsed, ep, e2) = >>=-eq-some (parse_spec start) _ e1 in
    let (applied, ea, e3) = >>=-eq-some (apply_spec parsed.0 s.input) _ e2 in
    (start, parsed, applied, es, ep, ea, cc e3)

step-Remembers : (s : State) {s' : State} → step s ≡ some s' → Remembers s'
step-Remembers s e =
    let (start, parsed, applied, es, ep, ea, e') = step_parts s e in rw e' (λ c. (parsed.0, ep, c))

-- Where a round starts: in the hint, or again at the last specification, which uses up data.
start_cases :
    (s : State) {start : Bytes}
    → spec_start s ≡ some start
    → (start ≡ s.hint)
      ⊎ ((s.hint ≡ []) × (start ≡ s.last_spec_start) × (s.last_spec_consumes ≡ true))
unfolding spec_start
start_cases s e = ground arith

apply_spec-lt :
    (spec : Spec) (input : Bytes) {r : Bytes × Bytes}
    → has_more input ≡ true
    → consumes spec ≡ true
    → apply_spec spec input ≡ some r
    → length r.1 < length input
apply_spec-lt spec [] d c e = cc
apply_spec-lt spec (b ∷ input) d c e = omega (arith, apply_spec-consumes spec b input c e)

step-size :
    (s : State) {s' : State}
    → Remembers s
    → has_more s.input ≡ true
    → step s ≡ some s'
    → size s' < size s
step-size s m d e =
    let (start, parsed, applied, es, ep, ea, e') = step_parts s e in
    rw e' (elim (start_cases s es) [
      | inl fresh ↦ omega (
        arith,
        ap length fresh,
        length-parse_spec start ep,
        length-apply_spec parsed.0 s.input ea,
      )
      | inr (ended, again, c) ↦
          let (spec, es', c') = m c in
          let same : parsed ≡ (spec, s.hint) = cc (ap parse_spec again) in
          omega (
            arith,
            ap (λ (p : Spec × Bytes). length p.1) same,
            apply_spec-lt parsed.0 s.input d (ap (λ (p : Spec × Bytes). consumes p.0) same ∙ c') ea,
          )
    ])

run_total : (fuel : ℕ) (s : State) → Remembers s → size s < fuel → run fuel s ≢ out_of_fuel
unfolding run
run_total zero s m h = absurd (omega arith)
run_total (suc fuel) s m h = elim (Bool-cases (has_more s.input)) [
  | inr ended ↦ rw ended (cc)
  | inl more ↦ elim (Option-cases (step s)) [
    | inl failing ↦ rw (more, failing) (cc)
    | inr (s', e) ↦
        rw (more, e) (run_total fuel s' (step-Remembers s e) (omega (arith, step-size s m more e)))
  ]
]

-- On every hint and every data the loop ends within its fuel: with a text, or with a failure.
pub apply_display_hint_total : (hint input : Bytes) → apply_display_hint hint input ≢ out_of_fuel
unfolding apply_display_hint
apply_display_hint_total hint input =
    ground
      (arith, run_total (length hint + length input + 1) (initial hint input) (λ c. absurd (cc c)))
