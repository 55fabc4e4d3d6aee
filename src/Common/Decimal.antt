-- ===== src/Common/Decimal.antt =====
-- What the code uses of `strconv`: printing an unsigned number in a base up to sixteen, `Itoa` and
-- the value of `Atoi` (its error is dropped wherever the code calls it).
use snmp_exporter.Common.{
  ℕ, zero, suc, ◌+◌, ◌-◌, ◌*◌, ◌/◌, ◌%◌, ◌^◌, ◌≤◌, ◌<◌, ◌≡◌, refl, ◌∙◌, ◌≢◌, Bool, true, false,
  ◌&&◌, [], ◌∷◌, arith, ltb, leb, ◌==◌, if◌then◌else◌, Bool-cases, ==_iff, inl, inr, All,
}
use snmp_exporter.Common.Int.{ℤ, pos, negsuc, IsInt64}
use snmp_exporter.Common.Text.{Bytes, Lacks}

-- A digit, in upper case above nine.
unfoldable pub digit_char : ℕ → ℕ
digit_char d = if ltb d 10 then b'0' + d else b'A' + (d - 10)

-- `digits base fuel n out` writes the digits of a positive `n` in front of `out`.
unfoldable pub digits_onto : ℕ → ℕ → ℕ → Bytes → Bytes
digits_onto base zero n out = out
digits_onto base (suc fuel) n out =
    let more = digits_onto base fuel (n / base) (digit_char (n % base) ∷ out) in
    if n == 0 then out else more

-- `strconv.AppendUint` and `FormatUint`.
unfoldable pub format_uint : ℕ → ℕ → Bytes
unfolding digits_onto digit_char
format_uint base n = if n == 0 then b'0' ∷ [] else digits_onto base n n []

-- `strconv.Itoa`.
unfoldable pub itoa : ℤ → Bytes
itoa (pos n) = format_uint 10 n
itoa (negsuc n) = b'-' ∷ format_uint 10 (suc n)

unfoldable pub is_digit : ℕ → Bool
is_digit c = leb b'0' c && leb c b'9'

-- How `ParseUint` ends: a value, a byte that is no digit, or a value beyond 64 bits.
pub data Scan : Type 0 where
  value : ℕ → Scan
  syntax : Scan
  range : Scan

scan_uint : ℕ → Bytes → Scan
scan_uint n [] = value n
scan_uint n (c ∷ s) =
    if is_digit c
    then if ltb (n * 10 + (c - b'0')) (2 ^ 64) then scan_uint (n * 10 + (c - b'0')) s else range
    else syntax

-- The value of a number with its sign: clamped to an int64, and 0 on a syntax error.
signed : Bool → Scan → ℤ
signed negative syntax = pos 0
signed false range = pos (2 ^ 63 - 1)
signed true range = negsuc (2 ^ 63 - 1)
signed false (value n) = if ltb n (2 ^ 63) then pos n else pos (2 ^ 63 - 1)
signed true (value zero) = pos 0
signed true (value (suc n)) = if ltb n (2 ^ 63) then negsuc n else negsuc (2 ^ 63 - 1)

digits_value : Bool → Bytes → ℤ
digits_value negative [] = pos 0
digits_value negative (c ∷ s) = signed negative (scan_uint 0 (c ∷ s))

-- The integer that `strconv.Atoi` returns beside its error.
unfoldable pub atoi : Bytes → ℤ
unfolding digits_value signed scan_uint is_digit
atoi [] = pos 0
atoi (c ∷ s) =
    if c == b'-'
    then digits_value true s
    else if c == b'+'
    then digits_value false s
    else digits_value false (c ∷ s)

-- `strconv.Atoi` gives no error.
is_in_range : Bool → Scan → Bool
is_in_range negative syntax = false
is_in_range negative range = false
is_in_range negative (value n) = ltb n (if negative then 2 ^ 63 + 1 else 2 ^ 63)

has_value : Bool → Bytes → Bool
has_value negative [] = false
has_value negative (c ∷ s) = is_in_range negative (scan_uint 0 (c ∷ s))

unfoldable pub is_int : Bytes → Bool
unfolding has_value is_in_range scan_uint is_digit
is_int [] = false
is_int (c ∷ s) =
    if c == b'-'
    then has_value true s
    else if c == b'+'
    then has_value false s
    else has_value false (c ∷ s)

abbrev pub IsDigit : ℕ → Type 0
IsDigit c = (b'0' ≤ c) × (c ≤ b'9')

digits_onto-IsDigit :
    (fuel n : ℕ) (out : Bytes) → All IsDigit out → All IsDigit (digits_onto 10 fuel n out)
unfolding digits_onto digit_char
digits_onto-IsDigit zero n out h = h
digits_onto-IsDigit (suc fuel) n out h =
    ground (arith, digits_onto-IsDigit fuel (n / 10) (digit_char (n % 10) ∷ out))

-- Every printed decimal is made of digits.
pub format_uint-IsDigit : (n : ℕ) → All IsDigit (format_uint 10 n)
unfolding format_uint
format_uint-IsDigit n = ground (arith, digits_onto-IsDigit n n [] tt)

scan_step :
    (n d : ℕ) (s : Bytes)
    → d < 10
    → n * 10 + d < 2 ^ 64
    → scan_uint n (digit_char d ∷ s) ≡ scan_uint (n * 10 + d) s
unfolding scan_uint is_digit digit_char
scan_step n d s h k = ground arith

scan-digits_onto :
    (fuel n : ℕ) (out : Bytes)
    → n ≤ fuel
    → n < 2 ^ 64
    → scan_uint 0 (digits_onto 10 fuel n out) ≡ scan_uint n out
unfolding digits_onto
scan-digits_onto zero n out h k = let e : n ≡ 0 = omega arith in rw e
scan-digits_onto (suc fuel) n out h k = ground (
  arith,
  scan-digits_onto fuel (n / 10) (digit_char (n % 10) ∷ out),
  scan_step (n / 10) (n % 10) out,
)

scan-format_uint : (n : ℕ) → n < 2 ^ 64 → scan_uint 0 (format_uint 10 n) ≡ value n
unfolding format_uint scan_uint is_digit
scan-format_uint n h = elim (Bool-cases (n == 0)) [
  | inl z ↦ let e : n ≡ 0 = (==_iff n 0).0 z in rw (z, e) refl
  | inr p ↦ rw p (scan-digits_onto n n [] (omega arith) h)
]

digits_onto-ne-nil : (fuel n : ℕ) (out : Bytes) → out ≢ [] → digits_onto 10 fuel n out ≢ []
unfolding digits_onto
digits_onto-ne-nil zero n out h = h
digits_onto-ne-nil (suc fuel) n out h =
    ground (arith, digits_onto-ne-nil fuel (n / 10) (digit_char (n % 10) ∷ out))

pub format_uint-ne-nil : (n : ℕ) → format_uint 10 n ≢ []
unfolding format_uint digits_onto
format_uint-ne-nil zero = cc
format_uint-ne-nil (suc n) =
    ground (arith, digits_onto-ne-nil n (suc n / 10) (digit_char (suc n % 10) ∷ []))

atoi_digits : (s : Bytes) → s ≢ [] → All IsDigit s → atoi s ≡ signed false (scan_uint 0 s)
unfolding atoi
atoi_digits [] h d = absurd (h refl)
atoi_digits (c ∷ s) h (d, _) = ground arith

atoi_negative : (s : Bytes) → s ≢ [] → atoi (b'-' ∷ s) ≡ signed true (scan_uint 0 s)
unfolding atoi
atoi_negative [] h = absurd (h refl)
atoi_negative (c ∷ s) h = refl

-- `Atoi` reads back what `Itoa` prints, for every int64.
pub atoi-itoa : (z : ℤ) → IsInt64 z → atoi (itoa z) ≡ z
unfolding itoa signed
atoi-itoa (pos n) h =
    atoi_digits _ (format_uint-ne-nil n) (format_uint-IsDigit n)
    ∙ rw (scan-format_uint n (omega arith)) (ground arith)
atoi-itoa (negsuc n) h =
    atoi_negative _ (format_uint-ne-nil (suc n))
    ∙ rw (scan-format_uint (suc n) (omega arith)) (ground arith)

IsDigit-Lacks : (b : ℕ) (s : Bytes) → b < b'0' → All IsDigit s → Lacks b s
IsDigit-Lacks b [] h d = tt
IsDigit-Lacks b (c ∷ s) h (d, ds) = (ground arith, IsDigit-Lacks b s h ds)

-- No printed integer holds a dot.
pub itoa-Lacks : (z : ℤ) → Lacks b'.' (itoa z)
unfolding itoa
itoa-Lacks (pos n) = IsDigit-Lacks b'.' _ (omega arith) (format_uint-IsDigit n)
itoa-Lacks (negsuc n) =
    (ground arith, IsDigit-Lacks b'.' _ (omega arith) (format_uint-IsDigit (suc n)))

is_int_digits : (s : Bytes) → s ≢ [] → All IsDigit s → is_int s ≡ is_in_range false (scan_uint 0 s)
unfolding is_int has_value
is_int_digits [] h d = absurd (h refl)
is_int_digits (c ∷ s) h (d, _) = ground arith

-- What `Itoa` prints of a natural number is read without an error.
pub is_int-itoa : (n : ℕ) → n < 2 ^ 63 → is_int (itoa (pos n)) ≡ true
unfolding itoa is_in_range
is_int-itoa n h =
    is_int_digits _ (format_uint-ne-nil n) (format_uint-IsDigit n)
    ∙ rw (scan-format_uint n (omega arith)) (ground arith)

digits-Lacks : (b : ℕ) (s : Bytes) → b'9' < b → All IsDigit s → Lacks b s
digits-Lacks b [] h d = tt
digits-Lacks b (c ∷ s) h (d, ds) = (ground arith, digits-Lacks b s h ds)

-- Nor does it hold a byte above the digits.
pub itoa-Lacks-above : (b n : ℕ) → b'9' < b → Lacks b (itoa (pos n))
unfolding itoa
itoa-Lacks-above b n h = digits-Lacks b _ h (format_uint-IsDigit n)
