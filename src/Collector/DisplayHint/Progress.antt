-- ===== src/Collector/DisplayHint/Progress.antt =====
-- What a round of the DISPLAY-HINT loop uses up.
use snmp_exporter.Common.{
  ℕ, zero, suc, ◌+◌, ◌-◌, ◌*◌, ◌%◌, ◌^◌, ◌≤◌, ◌<◌, ◌≡◌, Bool, true, false, [], ◌∷◌, ◌++◌, arith,
  leb, some, length, take, drop, >>=-eq-some, length-drop, Bool-cases, inl, inr,
}
use snmp_exporter.Common.Text.{Bytes}
use snmp_exporter.Collector.DisplayHint.{
  Spec, read_star, read_digits, read_format, read_mark, parse_spec, starts_digit, format_chunk,
  separator, repeat_spec, repeat_count, apply_spec, consumes,
}

length-read_star : (h : Bytes) → length (read_star h).1 ≤ length h
unfolding read_star
length-read_star [] = omega arith
length-read_star (c ∷ h) = ground arith

length-read_digits : (n : ℕ) (h : Bytes) → length (read_digits n h).1 ≤ length h
unfolding read_digits
length-read_digits n [] = omega arith
length-read_digits n (c ∷ h) = ground (arith, length-read_digits ((n * 10 + (c - b'0')) % 2 ^ 64) h)

length-read_mark : (b : Bool) (h : Bytes) → length (read_mark b h).1 ≤ length h
unfolding read_mark
length-read_mark b [] = omega arith
length-read_mark b (c ∷ h) = ground arith

length-read_format :
    (h : Bytes) {c : ℕ} {h' : Bytes} → read_format h ≡ some (c, h') → length h' < length h
unfolding read_format
length-read_format [] e = cc
length-read_format (c ∷ h) e = ground arith

-- A parsed specification is not empty.
pub length-parse_spec :
    (h : Bytes) {spec : Spec} {h' : Bytes} → parse_spec h ≡ some (spec, h') → length h' < length h
unfolding parse_spec
length-parse_spec h {spec} {h'} e = elim (Bool-cases (starts_digit (read_star h).1)) [
  | inr n ↦ cc (rw n at e)
  | inl y ↦ elim (Bool-cases (leb (2 ^ 63) (read_digits 0 (read_star h).1).0)) [
    | inl over ↦ cc (rw (y, over) at e)
    | inr fits ↦
        let (formatted, ef, el) =
          >>=-eq-some (read_format (read_digits 0 (read_star h).1).1) _ (rw (y, fits) at e) in
        ground (
          arith,
          length-read_star h,
          length-read_digits 0 (read_star h).1,
          length-read_format _ ef,
          length-read_mark true formatted.1,
          length-read_mark (read_star h).0 (read_mark true formatted.1).1,
        )
  ]
]

-- A round of the repeat loop: the text of its chunk, and the later rounds.
pub repeat_spec-round :
    (spec : Spec) (rounds b : ℕ) (input : Bytes) {r : Bytes × Bytes}
    → repeat_spec spec (suc rounds) (b ∷ input) ≡ some r
    → (written : Bytes) × (later : Bytes × Bytes) × (format_chunk spec.fmt_char
          (take spec.take (b ∷ input))
        ≡ some written)
      × (repeat_spec spec rounds (drop spec.take (b ∷ input)) ≡ some later)
      × (r ≡ (written ++ (separator spec rounds (drop spec.take (b ∷ input)) ++ later.0), later.1))
unfolding repeat_spec
repeat_spec-round spec rounds b input e =
    let (written, ew, e') =
      >>=-eq-some (format_chunk spec.fmt_char (take spec.take (b ∷ input))) _ e in
    let (later, el, er) = >>=-eq-some (repeat_spec spec rounds (drop spec.take (b ∷ input))) _ e' in
    (written, later, ew, el, cc er)

length-repeat_spec :
    (spec : Spec) (rounds : ℕ) (input : Bytes) {r : Bytes × Bytes}
    → repeat_spec spec rounds input ≡ some r
    → length r.1 ≤ length input
length-repeat_spec spec zero input e = unfold repeat_spec in ground arith
length-repeat_spec spec (suc rounds) [] e = unfold repeat_spec in ground arith
length-repeat_spec spec (suc rounds) (b ∷ input) e =
    let (written, later, ew, el, er) = repeat_spec-round spec rounds b input e in
    let ih = length-repeat_spec spec rounds (drop spec.take (b ∷ input)) el in
    rw er (omega (arith, length-drop spec.take (b ∷ input), ih))

pub apply_spec-group :
    (spec : Spec) (input : Bytes) {r : Bytes × Bytes}
    → apply_spec spec input ≡ some r
    → (group : Bytes × Bytes) × (repeat_spec spec
          (repeat_count spec input).0
          (repeat_count spec input).1
        ≡ some group)
      × (r.1 ≡ group.1)
unfolding apply_spec
apply_spec-group spec input e =
    let (group, eg, er) =
      >>=-eq-some (repeat_spec spec (repeat_count spec input).0 (repeat_count spec input).1) _ e in
    (group, eg, ground arith)

length-repeat_count :
    (spec : Spec) (input : Bytes) → length (repeat_count spec input).1 ≤ length input
unfolding repeat_count
length-repeat_count spec [] = omega arith
length-repeat_count spec (b ∷ input) = ground arith

length-repeat_count_star :
    (spec : Spec) (b : ℕ) (input : Bytes)
    → spec.star_prefix ≡ true
    → length (repeat_count spec (b ∷ input)).1 ≤ length input
unfolding repeat_count
length-repeat_count_star spec b input h = ground arith

repeat_count_plain :
    (spec : Spec) (b : ℕ) (input : Bytes)
    → spec.star_prefix ≡ false
    → repeat_count spec (b ∷ input) ≡ (1, b ∷ input)
unfolding repeat_count
repeat_count_plain spec b input h = rw h

take_pos : (spec : Spec) → spec.star_prefix ≡ false → consumes spec ≡ true → 0 < spec.take
unfolding consumes
take_pos spec h c = ground arith

pub length-apply_spec :
    (spec : Spec) (input : Bytes) {r : Bytes × Bytes}
    → apply_spec spec input ≡ some r
    → length r.1 ≤ length input
length-apply_spec spec input e =
    let (group, eg, er) = apply_spec-group spec input e in
    rw er (omega (arith, length-repeat_spec spec _ _ eg, length-repeat_count spec input))

-- A specification that takes a positive length or has a star uses up data.
pub apply_spec-consumes :
    (spec : Spec) (b : ℕ) (input : Bytes) {r : Bytes × Bytes}
    → consumes spec ≡ true
    → apply_spec spec (b ∷ input) ≡ some r
    → length r.1 ≤ length input
apply_spec-consumes spec b input c e =
    let (group, eg, er) = apply_spec-group spec (b ∷ input) e in
    elim (Bool-cases spec.star_prefix) [
      | inl star ↦ rw er (
          omega (arith, length-repeat_spec spec _ _ eg, length-repeat_count_star spec b input star))
      | inr plain ↦
          let (written, later, ew, el, eq) =
            repeat_spec-round spec 0 b input (rw (repeat_count_plain spec b input plain) at eg) in
          rw er (
            rw eq (
              omega (
                arith,
                length-repeat_spec spec _ _ el,
                length-drop spec.take (b ∷ input),
                take_pos spec plain c,
              )))
    ]
