-- ===== src/Collector/DisplayHint/Formats.antt =====
-- The hints of MAC addresses and of display strings, on data of any length.
use snmp_exporter.Common.{
  ℕ, zero, suc, ◌+◌, ◌<◌, ◌≡◌, refl, sym, ap, ◌∙◌, false, not, ◌&&◌, ◌==◌, [], ◌∷◌, ◌++◌, arith,
  Option, some, none, length, map, take, drop, length-drop, append_assoc, take-append-drop,
  append-nil, Bool-cases, inl, inr,
}
use snmp_exporter.Common.Text.{Bytes, text, join}
use snmp_exporter.Collector.DisplayHint.{
  Spec, Outcome, done, parse_spec, format_chunk, separator, repeat_spec, repeat_count, apply_spec,
  consumes, has_more, apply_display_hint, write_hex, read_star, read_digits, read_format, read_mark,
  starts_digit,
}
use snmp_exporter.Collector.DisplayHint.Meaning.{
  spec_meaning, apply_spec-spec_meaning, groups, all_shown, shown, written, separated, open_end,
  closing,
}
use snmp_exporter.Collector.DisplayHint.Refinement.{
  Parses, end, spec, meaning, apply_one, repeat_last, apply_display_hint-Parses,
}

abbrev mac_spec : Spec
mac_spec = record { star_prefix = false; take = 1; fmt_char = b'x'; sep = some b':'; term = none }

mac-Parses : Parses (text "1x:") (mac_spec ∷ [])
unfolding text parse_spec read_star read_digits read_format read_mark starts_digit
mac-Parses = spec refl end

abbrev pub hex_byte : ℕ → Bytes
hex_byte b = write_hex (b ∷ [])

first_mac :
    (fuel b : ℕ) (input out : Bytes) (last : Option Spec)
    → meaning (suc fuel) (mac_spec ∷ []) last (b ∷ input) out
      ≡ meaning (suc fuel) [] (some mac_spec) (b ∷ input) out
unfolding meaning repeat_last
first_mac fuel b input out last = refl

mac_last :
    (fuel b : ℕ) (out : Bytes)
    → meaning (suc (suc fuel)) [] (some mac_spec) (b ∷ []) out ≡ done (out ++ hex_byte b)
unfolding meaning repeat_last apply_one consumes spec_meaning groups all_shown shown written
    separated open_end closing write_hex
mac_last fuel b out = refl

mac_more :
    (fuel b c : ℕ) (r out : Bytes)
    → meaning (suc fuel) [] (some mac_spec) (b ∷ c ∷ r) out
      ≡ meaning fuel [] (some mac_spec) (c ∷ r) (out ++ (hex_byte b ++ b':' ∷ []))
unfolding meaning repeat_last apply_one consumes spec_meaning groups all_shown shown written
    separated open_end closing write_hex
mac_more fuel b c r out = refl

meaning-mac :
    (fuel b : ℕ) (r out : Bytes)
    → length (b ∷ r) < fuel
    → meaning fuel [] (some mac_spec) (b ∷ r) out ≡ done (out ++ join (map hex_byte (b ∷ r)) b':')
meaning-mac zero b r out h = absurd (omega arith)
meaning-mac (suc zero) b r out h = absurd (omega arith)
meaning-mac (suc (suc fuel)) b [] out h = mac_last fuel b out ∙ unfold join in refl
meaning-mac (suc (suc fuel)) b (c ∷ r) out h =
    mac_more (suc fuel) b c r out
    ∙ meaning-mac (suc fuel) c r _ (omega arith)
    ∙ ap done (
        append_assoc out (hex_byte b ++ b':' ∷ []) _
        ∙ ap (λ z. out ++ z) (append_assoc (hex_byte b) (b':' ∷ []) _))
    ∙ unfold join in refl

-- "1x:" prints any bytes in hexadecimal with a colon between two of them.
pub apply_display_hint-mac :
    (b : ℕ) (r : Bytes)
    → apply_display_hint (text "1x:") (b ∷ r) ≡ done (join (map hex_byte (b ∷ r)) b':')
unfolding text
apply_display_hint-mac b r =
    let e : 3 + suc (length r) + 1 ≡ suc (length r + 4) = omega arith in
    apply_display_hint-Parses b'1' (b'x' ∷ b':' ∷ []) b r mac-Parses
    ∙ rw e (
        first_mac (length r + 4) b r [] none
        ∙ meaning-mac (suc (length r + 4)) b r [] (omega arith))

abbrev text_spec : ℕ → Spec
text_spec n = record { star_prefix = false; take = n; fmt_char = b'a'; sep = none; term = none }

text-Parses : Parses (text "255a") (text_spec 255 ∷ [])
unfolding text parse_spec read_star read_digits read_format read_mark starts_digit
text-Parses = spec refl end

apply_spec-text :
    (n b : ℕ) (input : Bytes)
    → apply_spec (text_spec n) (b ∷ input) ≡ some (take n (b ∷ input), drop n (b ∷ input))
unfolding apply_spec repeat_count repeat_spec format_chunk separator
apply_spec-text n b input = elim (Bool-cases (has_more (drop n (b ∷ input)))) [
  | inl more ↦ rw more (simp append-nil)
  | inr ended ↦ rw ended (simp append-nil)
]

apply_one-some :
    (next : Bytes → Bytes → Outcome) (s : Spec) (b : ℕ) (input out : Bytes) {w : Bytes × Bytes}
    → spec_meaning s b input ≡ some w
    → apply_one next s b input out ≡ next w.1 (out ++ w.0)
unfolding apply_one
apply_one-some next s b input out e = rw (e, apply_one) refl

apply_one-text :
    (next : Bytes → Bytes → Outcome) (n b : ℕ) (input out : Bytes)
    → apply_one next (text_spec n) b input out
      ≡ next (drop n (b ∷ input)) (out ++ take n (b ∷ input))
apply_one-text next n b input out =
    apply_one-some next (text_spec n) b input out
      (sym (apply_spec-spec_meaning (text_spec n) b input) ∙ apply_spec-text n b input)

first_text :
    (fuel b : ℕ) (input out : Bytes) (last : Option Spec)
    → meaning (suc fuel) (text_spec 255 ∷ []) last (b ∷ input) out
      ≡ meaning (suc fuel) [] (some (text_spec 255)) (b ∷ input) out
unfolding meaning repeat_last
first_text fuel b input out last = refl

-- Any last specification that copies its chunk copies all the data.
meaning-text :
    (n fuel : ℕ) (input out : Bytes)
    → 0 < n
    → length input < fuel
    → meaning fuel [] (some (text_spec n)) input out ≡ done (out ++ input)
unfolding meaning repeat_last
meaning-text n zero input out p h = absurd (omega arith)
meaning-text n (suc fuel) [] out p h = ap done (sym (append-nil out))
meaning-text n (suc fuel) (b ∷ input) out p h =
    let moves : (n == 0 && not false) ≡ false = ground arith in
    rw moves (
      apply_one-text _ n b input out
      ∙ meaning-text n fuel (drop n (b ∷ input)) _ p (omega (arith, length-drop n (b ∷ input)))
      ∙ ap done (
          append_assoc out (take n (b ∷ input)) (drop n (b ∷ input))
          ∙ ap (λ z. out ++ z) (take-append-drop n (b ∷ input))))

-- "255a" gives any data back as it is.
pub apply_display_hint-text :
    (b : ℕ) (r : Bytes) → apply_display_hint (text "255a") (b ∷ r) ≡ done (b ∷ r)
unfolding text
apply_display_hint-text b r =
    let e : 4 + suc (length r) + 1 ≡ suc (length r + 5) = omega arith in
    apply_display_hint-Parses b'2' (b'5' ∷ b'5' ∷ b'a' ∷ []) b r text-Parses
    ∙ rw e (
        first_text (length r + 5) b r [] none
        ∙ meaning-text 255 (suc (length r + 5)) (b ∷ r) [] (omega arith) (omega arith))
