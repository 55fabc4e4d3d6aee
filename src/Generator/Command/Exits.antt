-- ===== src/Generator/Command/Exits.antt =====
-- When the generator of generator/main.go ends with 0.
use snmp_exporter.Common.{
  ◌≡◌, refl, sym, ◌↔◌, Bool, true, false, not, ◌&&◌, List, [], ◌∷◌, arith, Option, some, none,
  Bool-cases,
}
use mathlib.Core.Path.{subst}
use snmp_exporter.Common.Text.{Bytes}
use snmp_exporter.Generator.Generate.{Ending, written, error, panics}
use snmp_exporter.Generator.Command.{
  Command, generate, parse_errors, dump, exit, is_none, run_command, run_scanned, run_main,
  scan_parse_output,
}

abbrev pub is_written : Ending → Bool
is_written (written path text) = true
is_written _ = false

-- What a command has to have done.
abbrev pub has_worked : Command → Ending → Bool
has_worked generate generated = is_written generated
has_worked _ generated = true

some-injective : {A : Type 0} (a b : A) → some a ≡ some b → a ≡ b
some-injective a b e = cc

run_command-zero :
    (command : Command) (fail : Bool) (lines : List Bytes) (generated : Ending)
    → (run_command command fail lines generated ≡ exit 0)
      ↔ (((fail && not (is_none lines)) ≡ false) × (has_worked command generated ≡ true))
unfolding run_command
run_command-zero generate false lines (written path content) = (λ e. (refl, refl), λ e. refl)
run_command-zero generate false lines (error x) = ground arith
run_command-zero generate false lines panics = ground arith
run_command-zero generate true [] (written path content) = ground arith
run_command-zero generate true [] (error x) = ground arith
run_command-zero generate true [] panics = ground arith
run_command-zero generate true (line ∷ lines) generated = ground arith
run_command-zero parse_errors fail lines generated =
    ground (arith, Bool-cases (fail && not (is_none lines)))
run_command-zero dump fail lines generated =
    ground (arith, Bool-cases (fail && not (is_none lines)))

-- What the lines and the outcome have to be.
abbrev pub Fine : Command → Bool → Ending → List Bytes → Type 0
Fine command fail generated lines =
    ((fail && not (is_none lines)) ≡ false) × (has_worked command generated ≡ true)

run_scanned-zero :
    (command : Command) (fail : Bool) (scan : Option (List Bytes)) (generated : Ending)
    → (run_scanned command fail scan generated ≡ exit 0)
      ↔ ((lines : List Bytes) × ((scan ≡ some lines) × Fine command fail generated lines))
run_scanned-zero command fail none generated = (λ e. ground arith, λ (l, (p, q)). cc)
run_scanned-zero command fail (some lines) generated = (
  λ e. (lines, (refl, (run_command-zero command fail lines generated).0 e)),
  λ (l, (p, q)).
      (run_command-zero command fail lines generated).1
        (subst (Fine command fail generated) (sym (some-injective lines l p)) q),
)

-- The generator ends with 0 exactly if NetSNMP could be initialised, scanning its output does not
-- panic, there are no parse errors that it was told to fail on, and, for the command "generate", a
-- configuration was written.
pub run_main-zero :
    (command : Command) (fail : Bool) (init : Option Bytes) (generated : Ending)
    → (run_main command fail init generated ≡ exit 0) ↔ (
        (output : Bytes) × ((init ≡ some output)
          × ((lines : List Bytes) × ((scan_parse_output output ≡ some lines)
                × Fine command fail generated lines))))
unfolding run_main
run_main-zero command fail none generated = (λ e. ground arith, λ (o, (p, q)). cc)
run_main-zero command fail (some output) generated = (
  λ e. (output, (refl, (run_scanned-zero command fail (scan_parse_output output) generated).0 e)),
  λ (o, (p, q)). (run_scanned-zero command fail (scan_parse_output output) generated).1 (
      subst
        (λ u.
          (lines : List Bytes) × ((scan_parse_output u ≡ some lines)
            × Fine command fail generated lines))
        (sym (some-injective output o p)) q),
)
