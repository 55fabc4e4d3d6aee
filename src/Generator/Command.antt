-- ===== src/Generator/Command.antt =====
-- The command line of the generator: `scanParseOutput` and `main` of generator/main.go, with the parts of
-- `strings` and the regular expression that they use. The commands are the ways that `main` goes on; the
-- output to the terminal is left out.
pub mod Exits
use snmp_exporter.Common.{
  ℕ, zero, suc, ◌-◌, ◌≡◌, Bool, true, false, not, ◌&&◌, ◌||◌, List, [], ◌∷◌, ◌++◌, length, ◌==◌,
  ltb, if◌then◌else◌, Option, some, none, drop, any,
}
use snmp_exporter.Common.Text.{Bytes, text, equal, has_prefix, split}
use snmp_exporter.Common.Utf8.{to_valid_utf8}
use snmp_exporter.Generator.Description.{space_width}
use snmp_exporter.Generator.Generate.{Ending, written, error, panics}

-- `strings.TrimSpace`: `skip` counts the bytes left of a white space.
unfoldable pub trim_left : ℕ → Bytes → Bytes
unfolding space_width
trim_left skip [] = []
trim_left (suc skip) (c ∷ s) = trim_left skip s
trim_left zero (c ∷ s) =
    let trimmed = trim_left (space_width (c ∷ s) - 1) s in
    if space_width (c ∷ s) == 0 then c ∷ s else trimmed

unfoldable pub all_space : ℕ → Bytes → Bool
unfolding space_width
all_space skip [] = true
all_space (suc skip) (c ∷ s) = all_space skip s
all_space zero (c ∷ s) = not (space_width (c ∷ s) == 0) && all_space (space_width (c ∷ s) - 1) s

unfoldable pub trim_right : Bytes → Bytes
unfolding all_space
trim_right [] = []
trim_right (c ∷ s) = let rest = trim_right s in if all_space 0 (c ∷ s) then [] else c ∷ rest

abbrev pub trim_space : Bytes → Bytes
trim_space s = trim_right (trim_left 0 s)

-- `\): (.+)`, from here or from a later place on.
unfoldable pub has_source : Bytes → Bool
has_source [] = false
has_source (c ∷ s) = (has_prefix (c ∷ s) (text "): ") && ltb 3 (length (c ∷ s))) || has_source s

-- `(.+)\): (.+)`; a line has no newline, which the dot does not match.
unfoldable pub has_groups : Bytes → Bool
unfolding has_source
has_groups [] = false
has_groups (c ∷ s) = has_source s

-- `cannotFindModuleRE` matches the line from here or from a later place on.
unfoldable pub matches_cannot_find : Bytes → Bool
unfolding has_groups
matches_cannot_find [] = false
matches_cannot_find (c ∷ s) =
    (has_prefix (c ∷ s) (text "Cannot find module (")
      && has_groups (drop (length (text "Cannot find module (")) (c ∷ s)))
    || matches_cannot_find s

-- The lines of the output.
unfoldable pub parse_lines : Bytes → List Bytes
unfolding trim_left trim_right to_valid_utf8 split
parse_lines output =
    let trimmed = trim_space (to_valid_utf8 output) in
    if equal trimmed [] then [] else split trimmed b'\n'

-- `missing[1]` of a line that the expression does not match is a panic.
unfoldable pub line_panics : Bytes → Bool
unfolding matches_cannot_find
line_panics line = has_prefix line (text "Cannot find module") && not (matches_cannot_find line)

-- `scanParseOutput`; `none` is a panic.
unfoldable pub scan_parse_output : Bytes → Option (List Bytes)
unfolding parse_lines line_panics
scan_parse_output output =
    if any line_panics (parse_lines output) then none else some (parse_lines output)

pub data Command : Type 0 where
  generate parse_errors dump : Command

-- How `main` ends.
pub data Exit : Type 0 where
  exit : ℕ → Exit
  panicked : Exit

abbrev pub is_none : List Bytes → Bool
is_none [] = true
is_none (line ∷ lines) = false

abbrev pub exit_code : Bool → ℕ
exit_code true = 1
exit_code false = 0

abbrev pub exit_after : Bool → Ending → Exit
exit_after failing (written path content) = exit (exit_code failing)
exit_after failing (error e) = exit 1
exit_after failing panics = panicked

-- With the parse errors that NetSNMP reported, and what `generateConfig` would do.
unfoldable pub run_command : Command → Bool → List Bytes → Ending → Exit
run_command generate fail_on_parse_errors lines generated =
    if fail_on_parse_errors && not (is_none lines)
    then exit 1
    else exit_after (fail_on_parse_errors && not (is_none lines)) generated
run_command parse_errors fail_on_parse_errors lines generated =
    exit (exit_code (fail_on_parse_errors && not (is_none lines)))
run_command dump fail_on_parse_errors lines generated =
    exit (exit_code (fail_on_parse_errors && not (is_none lines)))

abbrev pub run_scanned : Command → Bool → Option (List Bytes) → Ending → Exit
run_scanned command fail_on_parse_errors none generated = panicked
run_scanned command fail_on_parse_errors (some lines) generated =
    run_command command fail_on_parse_errors lines generated

-- `main`, over what `initSNMP` gives, and what `generateConfig` does if it is called.
unfoldable pub run_main : Command → Bool → Option Bytes → Ending → Exit
unfolding run_command scan_parse_output
run_main command fail_on_parse_errors none generated = exit 1
run_main command fail_on_parse_errors (some output) generated =
    run_scanned command fail_on_parse_errors (scan_parse_output output) generated
