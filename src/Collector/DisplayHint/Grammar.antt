-- ===== src/Collector/DisplayHint/Grammar.antt =====
-- How RFC 2579 writes the specifications of a DISPLAY-HINT.
use snmp_exporter.Common.{
  ℕ, ◌+◌, ◌-◌, ◌*◌, ◌%◌, ◌^◌, ◌≤◌, ◌<◌, ◌≡◌, refl, Bool, true, false, ◌||◌, [], ◌∷◌, ◌++◌, arith,
  leb, ◌==◌, Option, some, none, All,
}
use snmp_exporter.Common.Text.{Bytes}
use snmp_exporter.Common.Decimal.{is_digit}
use snmp_exporter.Collector.DisplayHint.{
  Spec, mark, read_star, read_digits, starts_digit, read_format, read_mark, parse_spec,
}

abbrev pub star_text : Bool → Bytes
star_text true = b'*' ∷ []
star_text false = []

-- The value of decimal digits behind others.
unfoldable pub decimal : ℕ → Bytes → ℕ
decimal n [] = n
decimal n (c ∷ digits) = decimal (n * 10 + (c - b'0')) digits

abbrev pub IsDigits : Bytes → Type 0
IsDigits = All (λ c. is_digit c ≡ true)

abbrev pub IsFormat : ℕ → Type 0
IsFormat c = (c == b'd' || c == b'x' || c == b'o' || c == b'a' || c == b't') ≡ true

-- A separator or terminator is no digit and no star, and there is none only where the text ends or goes
-- on with one of these, or where none is allowed.
abbrev pub IsMark : Bool → Option ℕ → Bytes → Type 0
IsMark true (some c) tail = (is_digit c || c == b'*') ≡ false
IsMark false (some c) tail = ⊥
IsMark true none [] = Unit
IsMark true none (c ∷ tail) = (is_digit c || c == b'*') ≡ true
IsMark false none tail = Unit

-- A specification, its text with the text behind it, and the text behind it: a star perhaps, the length
-- in decimal digits below 2^63, the format, a separator perhaps, and behind a star a terminator perhaps.
pub data SpecText : Spec → Bytes → Bytes → Type 0 where
  spec_text :
      (star : Bool) (d : ℕ) (digits : Bytes) (format : ℕ) (sep term : Option ℕ) (rest : Bytes)
      → IsDigits (d ∷ digits)
      → decimal 0 (d ∷ digits) < 2 ^ 63
      → IsFormat format
      → IsMark true sep (mark term ++ rest)
      → IsMark star term rest
      → SpecText
          (record {
            star_prefix = star;
            take = decimal 0 (d ∷ digits);
            fmt_char = format;
            sep = sep;
            term = term;
          })
          (star_text star ++ (d ∷ digits ++ (format ∷ (mark sep ++ (mark term ++ rest)))))
          rest

decimal_grows : (n : ℕ) (digits : Bytes) → n ≤ decimal n digits
unfolding decimal
decimal_grows n [] = omega arith
decimal_grows n (c ∷ digits) = omega (arith, decimal_grows (n * 10 + (c - b'0')) digits)

read_star-lem :
    (star : Bool) (d : ℕ) (tail : Bytes)
    → is_digit d ≡ true
    → read_star (star_text star ++ (d ∷ tail)) ≡ (star, d ∷ tail)
unfolding read_star is_digit
read_star-lem true d tail h = refl
read_star-lem false d tail h = ground arith

read_digits-lem :
    (n : ℕ) (digits : Bytes) (format : ℕ) (tail : Bytes)
    → IsDigits digits
    → decimal n digits < 2 ^ 63
    → is_digit format ≡ false
    → read_digits n (digits ++ (format ∷ tail)) ≡ (decimal n digits, format ∷ tail)
unfolding read_digits decimal
read_digits-lem n [] format tail h l f = rw f refl
read_digits-lem n (c ∷ digits) format tail (h, hs) l f =
    let m = n * 10 + (c - b'0') in
    let small : m % 2 ^ 64 ≡ m = omega (arith, decimal_grows m digits) in
    rw (h, small) (read_digits-lem m digits format tail hs l f)

read_mark-lem :
    (allowed : Bool) (m : Option ℕ) (tail : Bytes)
    → IsMark allowed m tail
    → read_mark allowed (mark m ++ tail) ≡ (m, tail)
unfolding read_mark
read_mark-lem true (some c) tail h = ground arith
read_mark-lem false (some c) tail h = absurd h
read_mark-lem true none [] h = refl
read_mark-lem true none (c ∷ tail) h = ground arith
read_mark-lem false none [] h = refl
read_mark-lem false none (c ∷ tail) h = refl

read_format-lem : (c : ℕ) (tail : Bytes) → IsFormat c → read_format (c ∷ tail) ≡ some (c, tail)
unfolding read_format
read_format-lem c tail h = rw h refl

format_no_digit : (c : ℕ) → IsFormat c → is_digit c ≡ false
unfolding is_digit
format_no_digit c h = ground arith

-- The code reads the text of a specification as this specification.
pub parse_spec-SpecText :
    {s : Spec} {h rest : Bytes} → SpecText s h rest → parse_spec h ≡ some (s, rest)
unfolding parse_spec starts_digit
parse_spec-SpecText (spec_text star d digits format sep term rest ds l f m t) =
    let tail = mark sep ++ (mark term ++ rest) in
    let small : leb (2 ^ 63) (decimal 0 (d ∷ digits)) ≡ false = ground arith in
    rw
      (
        read_star-lem star d (digits ++ (format ∷ tail)) ds.0,
        read_digits-lem 0 (d ∷ digits) format tail ds l (format_no_digit format f),
        ds.0,
        small,
        read_format-lem format tail f,
        read_mark-lem true sep (mark term ++ rest) m,
        read_mark-lem star term rest t,
      )
      refl
