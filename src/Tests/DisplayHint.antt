-- ===== src/Tests/DisplayHint.antt =====
-- Cases of collector/display_hint_test.go, and the theorems on `applyDisplayHint` at inputs.
use snmp_exporter.Common.{arith, ℕ, ◌+◌, ◌≡◌, ◌≢◌, refl, false, [], ◌∷◌, none, some, length}
use snmp_exporter.Common.Text.{Bytes, text}
use snmp_exporter.Common.Decimal.{format_uint, digit_char, is_digit}
use snmp_exporter.Collector.DisplayHint.{
  Outcome, done, failed, out_of_fuel, Spec, parse_spec, format_chunk, separator, repeat_spec,
  repeat_count, apply_spec, consumes, spec_start, step, run, apply_display_hint, read_star,
  read_digits, read_format, read_mark, write_hex, big_endian, starts_digit,
}
use snmp_exporter.Collector.DisplayHint.Grammar.{spec_text, decimal}
use snmp_exporter.Collector.DisplayHint.Termination.{apply_display_hint_total}
use snmp_exporter.Collector.DisplayHint.Refinement.{
  next_text, no_text, Texts, meaning, apply_display_hint-meaning,
}

-- `apply_display_hint` with all that it calls unfolded.
abbrev apply : Bytes → Bytes → Outcome
unfolding apply_display_hint run step spec_start parse_spec apply_spec consumes repeat_spec
    repeat_count format_chunk separator read_star read_digits read_format read_mark write_hex
    big_endian starts_digit text format_uint digit_char
apply hint input = apply_display_hint hint input

ipv4 : apply (text "1d.1d.1d.1d") (192 ∷ 168 ∷ 1 ∷ 1 ∷ []) ≡ done (text "192.168.1.1")
unfolding apply
ipv4 = refl

ipv4z :
    apply (text "1d.1d.1d.1d%4d") (192 ∷ 168 ∷ 1 ∷ 1 ∷ 0 ∷ 0 ∷ 0 ∷ 3 ∷ [])
    ≡ done (text "192.168.1.1%3")
unfolding apply
ipv4z = refl

octal : apply (text "1o") (8 ∷ []) ≡ done (text "10")
unfolding apply
octal = refl

star_with_terminator :
    apply (text "*1d./1d") (3 ∷ 10 ∷ 20 ∷ 30 ∷ 40 ∷ []) ≡ done (text "10.20.30/40")
unfolding apply
star_with_terminator = refl

date_and_time :
    apply (text "2d-1d-1d,1d:1d:1d.1d") (7 ∷ 230 ∷ 8 ∷ 15 ∷ 8 ∷ 1 ∷ 15 ∷ 0 ∷ [])
    ≡ done (text "2022-8-15,8:1:15.0")
unfolding apply
date_and_time = refl

shorter_data : apply (text "1d.1d.1d.1d") (10 ∷ 20 ∷ []) ≡ done (text "10.20")
unfolding apply
shorter_data = refl

invalid_format : apply (text "1z") (1 ∷ []) ≡ failed
unfolding apply
invalid_format = refl

missing_take : apply (text "d") (1 ∷ []) ≡ failed
unfolding apply
missing_take = refl

no_progress : apply (text "0d") (1 ∷ []) ≡ failed
unfolding apply
no_progress = refl

apply_display_hint_total_example : apply_display_hint (text "0a1x") (1 ∷ 2 ∷ []) ≢ out_of_fuel
apply_display_hint_total_example = apply_display_hint_total (text "0a1x") (1 ∷ 2 ∷ [])

abbrev dotted_decimal : Spec
dotted_decimal = record {
  star_prefix = false;
  take = 1;
  fmt_char = b'd';
  sep = some b'.';
  term = none;
}

dotted-Texts : Texts (b'1' ∷ b'd' ∷ b'.' ∷ []) (dotted_decimal ∷ [])
unfolding is_digit decimal
dotted-Texts =
    next_text
      (spec_text false b'1' [] b'd' (some b'.') none [] (refl, tt) (omega arith) refl refl tt)
      no_text

apply_display_hint-meaning_example :
    apply_display_hint (b'1' ∷ b'd' ∷ b'.' ∷ []) (10 ∷ 7 ∷ [])
    ≡ meaning
        (length {A = ℕ} (b'1' ∷ b'd' ∷ b'.' ∷ []) + length {A = ℕ} (10 ∷ 7 ∷ []) + 1)
        (dotted_decimal ∷ [])
        none
        (10 ∷ 7 ∷ [])
        []
apply_display_hint-meaning_example =
    apply_display_hint-meaning b'1' (b'd' ∷ b'.' ∷ []) 10 (7 ∷ []) dotted-Texts
