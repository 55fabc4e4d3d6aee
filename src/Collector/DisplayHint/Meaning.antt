-- ===== src/Collector/DisplayHint/Meaning.antt =====
-- What one specification of a DISPLAY-HINT means: the data cut into octet strings, the text of each, and
-- the separators and the terminator between and behind them.
use snmp_exporter.Common.{
  ℕ, zero, suc, ◌+◌, ◌*◌, ◌^◌, ◌<◌, ◌/◌, ◌%◌, ◌≡◌, refl, sym, ap, ◌∙◌, List, [], ◌∷◌, ◌++◌, arith,
  ltb, ◌==◌, if◌then◌else◌, Option, some, none, length, take, drop, ◌>>=◌, append_assoc, append-nil,
  Bool-cases, Option-cases, inl, inr,
}
use snmp_exporter.Common.Text.{Bytes}
use native.Mathlib.Numerals.{unary_clauses}
use snmp_exporter.Common.Decimal.{digit_char, format_uint}
use snmp_exporter.Collector.DisplayHint.{
  Spec, write_hex, big_endian, format_chunk, has_more, mark, separator, repeat_spec, repeat_count,
  apply_spec,
}

-- The value of an octet string, the most significant octet first.
unfoldable pub octets : Bytes → ℕ
octets [] = 0
octets (b ∷ chunk) = b * 256 ^ length chunk + octets chunk

big_endian-octets :
    (v : ℕ) (chunk : Bytes)
    → (k : ℕ) × (v * 256 ^ length chunk + octets chunk ≡ big_endian v chunk + k * 2 ^ 64)
unfolding octets big_endian
big_endian-octets v [] = (0, omega arith)
big_endian-octets v (b ∷ chunk) =
    let p = 256 ^ length chunk in
    let w = v * 256 + b in
    let (k, e) = big_endian-octets (w % 2 ^ 64) chunk in
    let split : w * p ≡ (w / 2 ^ 64 * 2 ^ 64 + w % 2 ^ 64) * p = ap (λ x. x * p) (omega arith) in
    (
      (w / 2 ^ 64) * p + k,
      simp unary_clauses (shifted v b p (octets chunk) (w / 2 ^ 64) (w % 2 ^ 64) _ k split e),
    )
  where
    shifted :
        (v b p o q m r k : ℕ)
        → (v * 256 + b) * p ≡ (q * 2 ^ 64 + m) * p
        → m * p + o ≡ r + k * 2 ^ 64
        → v * (p * 256) + (b * p + o) ≡ r + (q * p + k) * 2 ^ 64
    shifted v b p o q m r k s e = grind arith

big_endian-bound : (v : ℕ) (chunk : Bytes) → v < 2 ^ 64 → big_endian v chunk < 2 ^ 64
unfolding big_endian
big_endian-bound v [] h = h
big_endian-bound v (b ∷ chunk) h = big_endian-bound ((v * 256 + b) % 2 ^ 64) chunk (omega arith)

-- The code's number is the value, of which the low 64 bits are kept.
big_endian-lem : (chunk : Bytes) → big_endian 0 chunk ≡ octets chunk % 2 ^ 64
big_endian-lem chunk =
    let (k, e) = big_endian-octets 0 chunk in
    omega (arith, e, big_endian-bound 0 chunk (omega arith))

-- An octet string as a number in the base 10 or 8, of 8 octets at most.
unfoldable pub number : ℕ → Bytes → Option Bytes
unfolding octets
number base chunk =
    if ltb 8 (length chunk) then none else some (format_uint base (octets chunk % 2 ^ 64))

-- Two digits for each octet.
abbrev hexadecimal : Bytes → Bytes
hexadecimal [] = []
hexadecimal (b ∷ chunk) = digit_char (b / 16) ∷ digit_char (b % 16) ∷ hexadecimal chunk

-- An octet string in the format: decimal, octal, hexadecimal, or as it is.
unfoldable pub shown : ℕ → Bytes → Option Bytes
unfolding number
shown c chunk =
    if c == b'o'
    then number 8 chunk
    else if c == b'd'
    then number 10 chunk
    else if c == b'x'
    then some (hexadecimal chunk)
    else some chunk

-- Octet strings of a length, at most so many, and the data behind them.
unfoldable pub groups : ℕ → ℕ → Bytes → List Bytes × Bytes
groups n zero input = ([], input)
groups n (suc count) [] = ([], [])
groups n (suc count) (b ∷ input) =
    let more = groups n count (drop n (b ∷ input)) in (take n (b ∷ input) ∷ more.0, more.1)

abbrev cons_text : Bytes → Option (List Bytes) → Option (List Bytes)
cons_text t none = none
cons_text t (some ts) = some (t ∷ ts)

abbrev shown_first : Option Bytes → Option (List Bytes) → Option (List Bytes)
shown_first none ts = none
shown_first (some t) ts = cons_text t ts

unfoldable pub all_shown : ℕ → List Bytes → Option (List Bytes)
unfolding shown
all_shown c [] = some []
all_shown c (chunk ∷ chunks) = shown_first (shown c chunk) (all_shown c chunks)

unfoldable pub separated : Option ℕ → List Bytes → Bytes
separated sep [] = []
separated sep (t ∷ []) = t
separated sep (t ∷ u ∷ ts) = t ++ (mark sep ++ separated sep (u ∷ ts))

-- Behind texts, where data is left and no terminator is to come, stands the separator once more.
unfoldable pub open_end : List Bytes → Bytes → Option ℕ → Option ℕ → Bytes
open_end [] rest sep term = []
open_end (t ∷ ts) [] sep term = []
open_end (t ∷ ts) (b ∷ rest) sep none = mark sep
open_end (t ∷ ts) (b ∷ rest) sep (some c) = []

-- The terminator stands behind all texts, where data is left.
unfoldable pub closing : Bytes → Option ℕ → Bytes
closing [] term = []
closing (b ∷ rest) term = mark term

unfoldable pub written : Spec → Option (List Bytes) → Bytes → Option (Bytes × Bytes)
unfolding separated open_end closing
written s none rest = none
written s (some ts) rest =
    some (separated s.sep ts ++ (open_end ts rest s.sep s.term ++ closing rest s.term), rest)

-- The count of the octet strings is the first octet under a star, and 1 without.
unfoldable pub spec_meaning : Spec → ℕ → Bytes → Option (Bytes × Bytes)
unfolding written groups all_shown
spec_meaning s b input =
    let counted =
      groups s.take (if s.star_prefix then b else 1) (if s.star_prefix then input else b ∷ input) in
    written s (all_shown s.fmt_char counted.0) counted.1

write_hex-hexadecimal : (chunk : Bytes) → write_hex chunk ≡ hexadecimal chunk
unfolding write_hex
write_hex-hexadecimal [] = refl
write_hex-hexadecimal (b ∷ chunk) =
    ap (λ s. digit_char (b / 16) ∷ digit_char (b % 16) ∷ s) (write_hex-hexadecimal chunk)

-- The `switch` on the format character.
format_chunk-shown : (c : ℕ) (chunk : Bytes) → format_chunk c chunk ≡ shown c chunk
unfolding format_chunk shown number
format_chunk-shown c chunk = ground (arith, write_hex-hexadecimal chunk, big_endian-lem chunk)

-- The texts of the repeat loop, and what stands behind them.
looped : Spec → Option (List Bytes) → Bytes → Option (Bytes × Bytes)
unfolding open_end separated
looped s none rest = none
looped s (some ts) rest = some (separated s.sep ts ++ open_end ts rest s.sep s.term, rest)

round : Spec → ℕ → Bytes → Bytes → Option (Bytes × Bytes) → Option (Bytes × Bytes)
round s rounds t rest none = none
round s rounds t rest (some later) = some (t ++ (separator s rounds rest ++ later.0), later.1)

separator-last :
    (s : Spec) (t : Bytes) (rest : Bytes) → separator s 0 rest ≡ open_end (t ∷ []) rest s.sep s.term
unfolding separator open_end
separator-last s t [] = refl
separator-last s t (b ∷ rest) = elim (Option-cases s.term) [
  | inl e ↦ rw (e, open_end) refl
  | inr (c, e) ↦ rw (e, open_end) refl
]

separator-between :
    (s : Spec) (rounds b : ℕ) (rest : Bytes) → separator s (suc rounds) (b ∷ rest) ≡ mark s.sep
unfolding separator
separator-between s rounds b rest = ground arith

open_end-cons :
    (t u : Bytes) (ts : List Bytes) (rest : Bytes) (sep term : Option ℕ)
    → open_end (t ∷ u ∷ ts) rest sep term ≡ open_end (u ∷ ts) rest sep term
unfolding open_end
open_end-cons t u ts [] sep term = refl
open_end-cons t u ts (b ∷ rest) sep none = refl
open_end-cons t u ts (b ∷ rest) sep (some c) = refl

-- A round before others.
round-between :
    (s : Spec) (rounds b : ℕ) (t rest left : Bytes) (first : Option Bytes)
    (ts : Option (List Bytes))
    → round s (suc rounds) t (b ∷ rest) (looped s (shown_first first ts) left)
      ≡ looped s (cons_text t (shown_first first ts)) left
unfolding round looped separated
round-between s rounds b t rest left none ts = refl
round-between s rounds b t rest left (some u) none = refl
round-between s rounds b t rest left (some u) (some ts) =
    ap (λ x. some (x, left))
      (rw (separator-between s rounds b rest, open_end-cons t u ts left s.sep s.term)
        (ap (λ x. t ++ x) (sym (append_assoc (mark s.sep) (separated s.sep (u ∷ ts)) _))
          ∙ sym (append_assoc t (mark s.sep ++ separated s.sep (u ∷ ts)) _)))

round-looped :
    (s : Spec) (rounds : ℕ) (t rest : Bytes)
    → round s rounds t rest (
        looped s (all_shown s.fmt_char (groups s.take rounds rest).0) (groups s.take rounds rest).1)
      ≡ looped s
          (cons_text t (all_shown s.fmt_char (groups s.take rounds rest).0))
          (groups s.take rounds rest).1
unfolding looped round groups all_shown
round-looped s zero t rest =
    ap (λ x. some (t ++ x, rest)) (append-nil (separator s 0 rest) ∙ separator-last s t rest)
round-looped s (suc rounds) t [] = unfold separator in refl
round-looped s (suc rounds) t (b ∷ rest) =
    round-between s rounds b t rest _ (shown s.fmt_char (take s.take (b ∷ rest))) _

round_bind :
    (s : Spec) (rounds : ℕ) (t rest : Bytes) (o : Option (Bytes × Bytes))
    → (do later ← o; some (t ++ (separator s rounds rest ++ later.0), later.1))
      ≡ round s rounds t rest o
unfolding round
round_bind s rounds t rest none = refl
round_bind s rounds t rest (some later) = refl

repeat_spec-looped :
    (s : Spec) (rounds : ℕ) (input : Bytes)
    → repeat_spec s rounds input
      ≡ looped s
          (all_shown s.fmt_char (groups s.take rounds input).0)
          (groups s.take rounds input).1
unfolding repeat_spec looped groups all_shown
repeat_spec-looped s zero input = refl
repeat_spec-looped s (suc rounds) [] = refl
repeat_spec-looped s (suc rounds) (b ∷ input) =
    let chunk = take s.take (b ∷ input) in
    let rest = drop s.take (b ∷ input) in
    elim (Option-cases (shown s.fmt_char chunk)) [
      | inl e ↦ rw (format_chunk-shown s.fmt_char chunk, e, looped) refl
      | inr (t, e) ↦
          rw (format_chunk-shown s.fmt_char chunk, e, repeat_spec-looped s rounds rest)
            (round_bind s rounds t rest _ ∙ round-looped s rounds t rest)
    ]

group_end : Spec → Option (Bytes × Bytes) → Option (Bytes × Bytes)
group_end s none = none
group_end s (some group) = some (group.0 ++ (if has_more group.1 then mark s.term else []), group.1)

group_end-looped :
    (s : Spec) (ts : Option (List Bytes)) (rest : Bytes)
    → group_end s (looped s ts rest) ≡ written s ts rest
unfolding group_end looped written closing
group_end-looped s none rest = refl
group_end-looped s (some ts) [] =
    ap (λ x. some (x, [])) (append_assoc (separated s.sep ts) (open_end ts [] s.sep s.term) [])
group_end-looped s (some ts) (b ∷ rest) =
    ap (λ x. some (x, b ∷ rest))
      (append_assoc (separated s.sep ts) (open_end ts (b ∷ rest) s.sep s.term) (mark s.term))

group_end_bind :
    (s : Spec) (o : Option (Bytes × Bytes))
    → (do group ← o; some (group.0 ++ (if has_more group.1 then mark s.term else []), group.1))
      ≡ group_end s o
unfolding group_end
group_end_bind s none = refl
group_end_bind s (some group) = refl

-- The code's loop over the octet strings gives the meaning of a specification.
pub apply_spec-spec_meaning :
    (s : Spec) (b : ℕ) (input : Bytes) → apply_spec s (b ∷ input) ≡ spec_meaning s b input
unfolding apply_spec spec_meaning repeat_count repeat_spec separator
apply_spec-spec_meaning s b input = elim (Bool-cases s.star_prefix) [
  | inl e ↦ rw e (
      group_end_bind s (repeat_spec s b input)
      ∙ ap (group_end s) (repeat_spec-looped s b input)
      ∙ group_end-looped s _ _)
  | inr e ↦ rw e (
      group_end_bind s (repeat_spec s 1 (b ∷ input))
      ∙ ap (group_end s) (repeat_spec-looped s 1 (b ∷ input))
      ∙ group_end-looped s _ _)
]
