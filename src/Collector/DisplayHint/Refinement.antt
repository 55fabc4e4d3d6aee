-- ===== src/Collector/DisplayHint/Refinement.antt =====
-- The loop over the text of a hint against the meaning of RFC 2579: the specifications in order,
-- the last one again and again until the data is used up.
use snmp_exporter.Common.{
  ℕ, zero, suc, ◌+◌, ◌≡◌, refl, ap, ◌∙◌, Bool, true, false, not, ◌&&◌, ◌==◌, List, [], ◌∷◌, ◌++◌,
  arith, if◌then◌else◌, Option, some, none, length, Bool-cases, Option-cases, inl, inr,
}
use mathlib.Core.Path.{fun_ext}
use snmp_exporter.Common.Text.{Bytes}
use snmp_exporter.Collector.DisplayHint.Grammar.{SpecText, parse_spec-SpecText}
use snmp_exporter.Collector.DisplayHint.Meaning.{spec_meaning, apply_spec-spec_meaning}
use snmp_exporter.Collector.DisplayHint.{
  Spec, State, Outcome, done, failed, out_of_fuel, parse_spec, consumes, spec_start, step, run,
  apply_display_hint, starts_digit, read_star,
}

-- The hint is written as these specifications, one after the other.
pub data Texts : Bytes → List Spec → Type 0 where
  no_text : Texts [] []
  next_text :
      {h h' : Bytes} {s : Spec} {ss : List Spec} → SpecText s h h' → Texts h' ss → Texts h (s ∷ ss)

-- The code reads these specifications.
pub data Parses : Bytes → List Spec → Type 0 where
  end : Parses [] []
  spec :
      {b : ℕ} {h h' : Bytes} {s : Spec} {ss : List Spec}
      → parse_spec (b ∷ h) ≡ some (s, h')
      → Parses h' ss
      → Parses (b ∷ h) (s ∷ ss)

-- What a specification writes for data, and what follows it.
unfoldable pub apply_one : (Bytes → Bytes → Outcome) → Spec → ℕ → Bytes → Bytes → Outcome
unfolding spec_meaning
apply_one next s b input out = elim (spec_meaning s b input) [
  | none ↦ failed
  | some written ↦ next written.1 (out ++ written.0)
]

-- The last specification again, if it can use up data: it has a length, or reads a count.
unfoldable pub repeat_last : Option Spec → (Spec → Outcome) → Outcome
repeat_last none again = failed
repeat_last (some s) again = if s.take == 0 && not s.star_prefix then failed else again s

-- The specifications still to come, the one before them, the data left and the text so far.
unfoldable pub meaning : ℕ → List Spec → Option Spec → Bytes → Bytes → Outcome
meaning zero specs last input out = out_of_fuel
meaning (suc fuel) specs last [] out = done out
meaning (suc fuel) [] last (b ∷ input) out =
    repeat_last last (λ s. apply_one (meaning fuel [] (some s)) s b input out)
meaning (suc fuel) (s ∷ ss) last (b ∷ input) out =
    apply_one (meaning fuel ss (some s)) s b input out

abbrev state : Bytes → Bytes → Bytes → Bool → Bytes → State
state hint input start flag out = record {
  hint = hint;
  input = input;
  last_spec_start = start;
  last_spec_consumes = flag;
  result = out;
}

-- What the loop keeps of the last specification.
abbrev Remembered : Option Spec → Bytes → Bool → Bytes → Type 0
Remembered none start flag hint = flag ≡ false
Remembered (some s) start flag hint = (parse_spec start ≡ some (s, hint)) × (flag ≡ consumes s)

run-apply_one :
    (fuel : ℕ) (hint start input start' : Bytes) (b : ℕ) (flag : Bool) (out : Bytes) (s : Spec)
    (hint' : Bytes)
    → spec_start (state hint (b ∷ input) start flag out) ≡ some start'
    → parse_spec start' ≡ some (s, hint')
    → run (suc fuel) (state hint (b ∷ input) start flag out)
      ≡ apply_one (λ rest text. run fuel (state hint' rest start' (consumes s) text)) s b input out
unfolding run step apply_one
run-apply_one fuel hint start input start' b flag out s hint' es ep =
    elim (Option-cases (spec_meaning s b input)) [
      | inl failing ↦ rw (es, ep, apply_spec-spec_meaning s b input, failing, apply_one) refl
      | inr (written, e) ↦ rw (es, ep, apply_spec-spec_meaning s b input, e, apply_one) refl
    ]

apply_one_cong :
    {f g : Bytes → Bytes → Outcome} (s : Spec) (b : ℕ) (input out : Bytes)
    → ((rest text : Bytes) → f rest text ≡ g rest text)
    → apply_one f s b input out ≡ apply_one g s b input out
apply_one_cong s b input out h =
    ap (λ f. apply_one f s b input out) (fun_ext (λ rest. fun_ext (λ text. h rest text)))

run_no_input :
    (fuel : ℕ) (hint start : Bytes) (flag : Bool) (out : Bytes)
    → run (suc fuel) (state hint [] start flag out) ≡ done out
unfolding run
run_no_input fuel hint start flag out = refl

-- The hint is used up, and its last specification would use up no data.
run_exhausted :
    (fuel : ℕ) (b : ℕ) (input start : Bytes) (flag : Bool) (out : Bytes)
    → flag ≡ false
    → run (suc fuel) (state [] (b ∷ input) start flag out) ≡ failed
unfolding run step spec_start
run_exhausted fuel b input start flag out h = ground arith

spec_start_again :
    (input start : Bytes) (flag : Bool) (out : Bytes)
    → flag ≡ true
    → spec_start (state [] input start flag out) ≡ some start
unfolding spec_start
spec_start_again input start flag out h = rw h

spec_start_fresh :
    (c : ℕ) (h input start : Bytes) (flag : Bool) (out : Bytes)
    → spec_start (state (c ∷ h) input start flag out) ≡ some (c ∷ h)
unfolding spec_start
spec_start_fresh c h input start flag out = refl

stands_still : (s : Spec) → (s.take == 0 && not s.star_prefix) ≡ true → consumes s ≡ false
unfolding consumes
stands_still s p = ground arith

moves_on : (s : Spec) → (s.take == 0 && not s.star_prefix) ≡ false → consumes s ≡ true
unfolding consumes
moves_on s p = ground arith

run-meaning :
    (fuel : ℕ) (hint input start : Bytes) (flag : Bool) (out : Bytes) (specs : List Spec)
    (last : Option Spec)
    → Parses hint specs
    → Remembered last start flag hint
    → run fuel (state hint input start flag out) ≡ meaning fuel specs last input out
unfolding meaning repeat_last
run-meaning zero hint input start flag out specs last p m = unfold run in refl
run-meaning (suc fuel) hint [] start flag out specs last p m = run_no_input fuel hint start flag out
run-meaning (suc fuel) hint (b ∷ input) start flag out specs none end m =
    run_exhausted fuel b input start flag out m
run-meaning (suc fuel) hint (b ∷ input) start flag out specs (some s) end (e, m) =
    elim (Bool-cases (s.take == 0 && not s.star_prefix)) [
      | inl no_progress ↦
          rw no_progress
            (run_exhausted fuel b input start flag out (m ∙ stands_still s no_progress))
      | inr progress ↦ rw progress (
          run-apply_one fuel [] start input start b flag out s []
            (spec_start_again (b ∷ input) start flag out (m ∙ moves_on s progress)) e
          ∙ apply_one_cong s b input out (λ rest text.
            run-meaning fuel [] rest start (consumes s) text [] (some s) end (e, refl)))
    ]
run-meaning (suc fuel) hint (b ∷ input) start flag out specs last
      (spec {b = c} {h} {h'} {s} {ss} e p) m =
    run-apply_one fuel (c ∷ h) start input (c ∷ h) b flag out s h'
      (spec_start_fresh c h (b ∷ input) start flag out) e
    ∙ apply_one_cong s b input out
        (λ rest text. run-meaning fuel h' rest (c ∷ h) (consumes s) text ss (some s) p (e, refl))

first-Parses :
    (h : Bytes) {h' : Bytes} {s : Spec} {ss : List Spec}
    → parse_spec h ≡ some (s, h')
    → Parses h' ss
    → Parses h (s ∷ ss)
unfolding parse_spec starts_digit read_star
first-Parses [] e p = absurd (ground arith)
first-Parses (b ∷ h) e p = spec e p

Texts-Parses : {h : Bytes} {specs : List Spec} → Texts h specs → Parses h specs
Texts-Parses no_text = end
Texts-Parses (next_text {h} t ts) = first-Parses h (parse_spec-SpecText t) (Texts-Parses ts)

pub apply_display_hint-Parses :
    (b : ℕ) (h : Bytes) (d : ℕ) (input : Bytes) {specs : List Spec}
    → Parses (b ∷ h) specs
    → apply_display_hint (b ∷ h) (d ∷ input)
      ≡ meaning (length (b ∷ h) + length (d ∷ input) + 1) specs none (d ∷ input) []
unfolding apply_display_hint
apply_display_hint-Parses b h d input p =
    run-meaning _ (b ∷ h) (d ∷ input) (b ∷ h) false [] _ none p refl

-- Where a hint that is not empty is written as specifications, and there is data, the single pass over
-- the text gives what the specifications mean: each cuts its octet strings off the data and writes them
-- in its format, with the separator between them and, where data is left, behind them, or there the
-- terminator; the last specification is applied until the data is used up.
pub apply_display_hint-meaning :
    (b : ℕ) (h : Bytes) (d : ℕ) (input : Bytes) {specs : List Spec}
    → Texts (b ∷ h) specs
    → apply_display_hint (b ∷ h) (d ∷ input)
      ≡ meaning (length (b ∷ h) + length (d ∷ input) + 1) specs none (d ∷ input) []
apply_display_hint-meaning b h d input p = apply_display_hint-Parses b h d input (Texts-Parses p)
