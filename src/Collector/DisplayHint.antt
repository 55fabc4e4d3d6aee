-- ===== src/Collector/DisplayHint.antt =====
-- collector/display_hint.go: an RFC 2579 DISPLAY-HINT applied to bytes in a single pass. A position
-- in the hint or in the data is the text from that position on.
pub mod Progress
pub mod Termination
pub mod Meaning
pub mod Grammar
pub mod Refinement
pub mod Formats
use snmp_exporter.Common.{
  ℕ, zero, suc, ◌+◌, ◌-◌, ◌*◌, ◌/◌, ◌%◌, ◌^◌, ◌≤◌, ◌<◌, ◌≡◌, refl, Bool, true, false, not, ◌&&◌,
  ◌||◌, List, [], ◌∷◌, ◌++◌, arith, ltb, leb, ◌==◌, if◌then◌else◌, Option, some, none, length, take,
  drop, ◌>>=◌,
}
use snmp_exporter.Common.Text.{Bytes}
use snmp_exporter.Common.Decimal.{is_digit, digit_char, format_uint}

-- One format specification: the variables that parts (1) to (5) of the loop's body set.
pub record Spec : Type 0 where
  pub star_prefix : Bool
  pub take : ℕ
  pub fmt_char : ℕ
  pub sep : Option ℕ
  pub term : Option ℕ

-- `writeHex`.
unfoldable pub write_hex : Bytes → Bytes
write_hex [] = []
write_hex (v ∷ src) = digit_char (v / 16) ∷ digit_char (v % 16) ∷ write_hex src

-- (1) The optional repeat indicator.
unfoldable pub read_star : Bytes → Bool × Bytes
read_star [] = (false, [])
read_star (c ∷ hint) = if c == b'*' then (true, hint) else (false, c ∷ hint)

-- (2) The digits of the octet length: `take = take*10 + int(c-'0')` on an int64.
unfoldable pub read_digits : ℕ → Bytes → ℕ × Bytes
unfolding is_digit
read_digits n [] = (n, [])
read_digits n (c ∷ hint) =
    let more = read_digits ((n * 10 + (c - b'0')) % 2 ^ 64) hint in
    if is_digit c then more else (n, c ∷ hint)

unfoldable pub starts_digit : Bytes → Bool
unfolding is_digit
starts_digit [] = false
starts_digit (c ∷ hint) = is_digit c

-- (3) The format character.
unfoldable pub read_format : Bytes → Option (ℕ × Bytes)
read_format [] = none
read_format (c ∷ hint) =
    if c == b'd' || c == b'x' || c == b'o' || c == b'a' || c == b't' then some (c, hint) else none

-- (4), (5) An optional separator or terminator: any byte but a digit or a star.
unfoldable pub read_mark : Bool → Bytes → Option ℕ × Bytes
unfolding is_digit
read_mark allowed [] = (none, [])
read_mark allowed (c ∷ hint) =
    if allowed && not (is_digit c) && not (c == b'*') then (some c, hint) else (none, c ∷ hint)

-- (1) to (5): the specification at the head of the hint, and the hint behind it.
unfoldable pub parse_spec : Bytes → Option (Spec × Bytes)
parse_spec hint =
    let starred = read_star hint in
    let counted = read_digits 0 starred.1 in
    if not (starts_digit starred.1) then none else if leb (2 ^ 63) counted.0 then none else do
      formatted ← read_format counted.1
      let separated = read_mark true formatted.1
      let terminated = read_mark starred.0 separated.1
      some (
        record {
          star_prefix = starred.0;
          take = counted.0;
          fmt_char = formatted.0;
          sep = separated.0;
          term = terminated.0;
        },
        terminated.1,
      )

-- The bytes of a chunk as a big-endian uint64: `val = (val << 8) | uint64(b)`.
unfoldable pub big_endian : ℕ → Bytes → ℕ
big_endian val [] = val
big_endian val (b ∷ chunk) = big_endian ((val * 256 + b) % 2 ^ 64) chunk

-- The `switch` on the format character.
unfoldable pub format_chunk : ℕ → Bytes → Option Bytes
format_chunk c chunk =
    if c == b'd'
    then (if ltb 8 (length chunk) then none else some (format_uint 10 (big_endian 0 chunk)))
    else if c == b'x'
    then some (write_hex chunk)
    else if c == b'o'
    then (if ltb 8 (length chunk) then none else some (format_uint 8 (big_endian 0 chunk)))
    else some chunk

abbrev pub has_more : Bytes → Bool
has_more [] = false
has_more (b ∷ rest) = true

abbrev pub is_some : Option ℕ → Bool
is_some none = false
is_some (some c) = true

abbrev pub mark : Option ℕ → Bytes
mark none = []
mark (some c) = c ∷ []

-- The separator behind a chunk: suppressed at the end of the data, and before a terminator.
unfoldable pub separator : Spec → ℕ → Bytes → Bytes
separator spec rounds rest =
    if has_more rest && (not (is_some spec.term) || not (rounds == 0)) then mark spec.sep else []

-- The repeat loop: `rounds` is `repeatCount - r`. The text written, and the data left.
unfoldable pub repeat_spec : Spec → ℕ → Bytes → Option (Bytes × Bytes)
repeat_spec spec zero input = some ([], input)
repeat_spec spec (suc rounds) [] = some ([], [])
repeat_spec spec (suc rounds) (b ∷ input) =
    let chunk = take spec.take (b ∷ input) in
    let rest = drop spec.take (b ∷ input) in
    do
      written ← format_chunk spec.fmt_char chunk
      later ← repeat_spec spec rounds rest
      some (written ++ (separator spec rounds rest ++ later.0), later.1)

-- The repeat count: the first byte of the value under a star, 1 without.
unfoldable pub repeat_count : Spec → Bytes → ℕ × Bytes
repeat_count spec [] = (1, [])
repeat_count spec (b ∷ input) = if spec.star_prefix then (b, input) else (1, b ∷ input)

-- A specification applied to the data, with the terminator behind its group.
unfoldable pub apply_spec : Spec → Bytes → Option (Bytes × Bytes)
apply_spec spec input = do
  group ← repeat_spec spec (repeat_count spec input).0 (repeat_count spec input).1
  some (group.0 ++ (if has_more group.1 then mark spec.term else []), group.1)

-- `lastSpecConsumesByte`.
unfoldable pub consumes : Spec → Bool
consumes spec = ltb 0 spec.take || spec.star_prefix

-- How a run ends: `(result, true)`, `("", false)`, or not within the fuel.
pub data Outcome : Type 0 where
  done : Bytes → Outcome
  failed : Outcome
  out_of_fuel : Outcome

pub record State : Type 0 where
  pub hint : Bytes
  pub input : Bytes
  pub last_spec_start : Bytes
  pub last_spec_consumes : Bool
  pub result : Bytes

-- `specStart`, with the restart at the last specification when the hint is exhausted.
unfoldable pub spec_start : State → Option Bytes
spec_start s =
    if has_more s.hint
    then some s.hint
    else if s.last_spec_consumes
    then some s.last_spec_start
    else none

-- The body of the loop.
unfoldable pub step : State → Option State
step s = do
  start ← spec_start s
  parsed ← parse_spec start
  applied ← apply_spec parsed.0 s.input
  some (record {
    hint = parsed.1;
    input = applied.1;
    last_spec_start = start;
    last_spec_consumes = consumes parsed.0;
    result = s.result ++ applied.0;
  })

-- The loop, while there is data.
unfoldable pub run : ℕ → State → Outcome
run zero s = out_of_fuel
run (suc fuel) s =
    if has_more s.input
    then elim (step s) [ none ↦ failed | some s' ↦ run fuel s' ]
    else done s.result

abbrev pub initial : Bytes → Bytes → State
initial hint input = record {
  hint = hint;
  input = input;
  last_spec_start = hint;
  last_spec_consumes = false;
  result = [];
}

-- `applyDisplayHint`: a round either reads the hint further or consumes data.
unfoldable pub apply_display_hint : Bytes → Bytes → Outcome
apply_display_hint hint input =
    if has_more hint && has_more input
    then run (length hint + length input + 1) (initial hint input)
    else failed
