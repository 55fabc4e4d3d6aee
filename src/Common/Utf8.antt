-- ===== src/Common/Utf8.antt =====
-- UTF-8 as Go reads it: the width of the character at the head of a text, `utf8.Valid` and
-- `strings.ToValidUTF8(s, "�")`.
use snmp_exporter.Common.{
  ℕ, zero, suc, ◌-◌, Bool, true, false, ◌&&◌, [], ◌∷◌, ◌++◌, leb, ltb, ◌==◌, if◌then◌else◌,
}
use snmp_exporter.Common.Text.{Bytes}

abbrev within : ℕ → ℕ → ℕ → Bool
within lo hi c = leb lo c && leb c hi

abbrev tail_byte : ℕ → Bool
tail_byte = within 0x80 0xBF

-- The second byte that may follow a first byte of a longer character.
unfoldable pub second_byte : ℕ → ℕ → Bool
second_byte a b =
    if a == 0xE0
    then within 0xA0 0xBF b
    else if a == 0xED
    then within 0x80 0x9F b
    else if a == 0xF0
    then within 0x90 0xBF b
    else if a == 0xF4
    then within 0x80 0x8F b
    else tail_byte b

-- The bytes of the character at the head of a text; 0 where it is not valid, and at the end.
unfoldable pub rune_width : Bytes → ℕ
rune_width [] = 0
rune_width (a ∷ []) = if ltb a 0x80 then 1 else 0
rune_width (a ∷ b ∷ []) =
    if ltb a 0x80 then 1 else if within 0xC2 0xDF a && tail_byte b then 2 else 0
rune_width (a ∷ b ∷ c ∷ []) =
    if ltb a 0x80
    then 1
    else if within 0xC2 0xDF a && tail_byte b
    then 2
    else if within 0xE0 0xEF a && second_byte a b && tail_byte c
    then 3
    else 0
rune_width (a ∷ b ∷ c ∷ d ∷ s) =
    if ltb a 0x80
    then 1
    else if within 0xC2 0xDF a && tail_byte b
    then 2
    else if within 0xE0 0xEF a && second_byte a b && tail_byte c
    then 3
    else if within 0xF0 0xF4 a && second_byte a b && tail_byte c && tail_byte d
    then 4
    else 0

abbrev pub replacement : Bytes
replacement = 0xEF ∷ 0xBF ∷ 0xBD ∷ []

-- `invalid` is set within a run of invalid bytes; `skip` counts the bytes left of a valid character.
unfoldable pub to_valid_onto : Bool → ℕ → Bytes → Bytes
to_valid_onto invalid skip [] = []
to_valid_onto invalid (suc skip) (c ∷ s) = c ∷ to_valid_onto false skip s
to_valid_onto invalid zero (c ∷ s) =
    let bad = (if invalid then [] else replacement) ++ to_valid_onto true zero s in
    let good = c ∷ to_valid_onto false (rune_width (c ∷ s) - 1) s in
    if rune_width (c ∷ s) == 0 then bad else good

-- `strings.ToValidUTF8` with the replacement character.
unfoldable pub to_valid_utf8 : Bytes → Bytes
unfolding to_valid_onto rune_width second_byte
to_valid_utf8 s = to_valid_onto false 0 s
