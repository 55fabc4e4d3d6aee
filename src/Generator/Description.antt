-- ===== src/Generator/Description.antt =====
-- The description of a node as `prepareTree` of generator/tree.go cuts it, with `strings.Fields`.
use snmp_exporter.Common.{
  ℕ, zero, suc, ◌-◌, Bool, false, ◌&&◌, ◌||◌, List, [], ◌∷◌, ◌++◌, ◌==◌, leb, if◌then◌else◌,
}
use snmp_exporter.Common.Text.{Bytes, has_prefix, text, join}

abbrev ascii_space : Bytes → Bool
ascii_space [] = false
ascii_space (c ∷ s) = (leb 9 c && leb c 13) || c == 32

abbrev wide_space : Bytes → Bool
wide_space (a ∷ b ∷ c ∷ s) =
    (a == 0xE1 && b == 0x9A && c == 0x80)
    || (a == 0xE2
        && b == 0x80
        && ((leb 0x80 c && leb c 0x8A) || c == 0xA8 || c == 0xA9 || c == 0xAF))
    || (a == 0xE2 && b == 0x81 && c == 0x9F)
    || (a == 0xE3 && b == 0x80 && c == 0x80)
wide_space _ = false

-- The bytes of the white space at the head of a text, as `unicode.IsSpace` has it; 0 for another
-- character.
unfoldable pub space_width : Bytes → ℕ
space_width s =
    if ascii_space s
    then 1
    else if has_prefix s (0xC2 ∷ 0x85 ∷ []) || has_prefix s (0xC2 ∷ 0xA0 ∷ [])
    then 2
    else if wide_space s
    then 3
    else 0

-- The word that was read, if any, before those that follow.
abbrev end_word : Bytes → List Bytes → List Bytes
end_word [] words = words
end_word (c ∷ word) words = (c ∷ word) ∷ words

-- `strings.Fields`: `skip` counts the bytes left of a white space, `word` holds what was read of a word.
unfoldable pub fields_onto : ℕ → Bytes → Bytes → List Bytes
fields_onto skip word [] = end_word word []
fields_onto (suc skip) word (c ∷ s) = fields_onto skip word s
fields_onto zero word (c ∷ s) =
    let longer = fields_onto zero (word ++ c ∷ []) s in
    let ended = end_word word (fields_onto (space_width (c ∷ s) - 1) [] s) in
    if space_width (c ∷ s) == 0 then longer else ended

unfoldable pub fields : Bytes → List Bytes
unfolding fields_onto space_width
fields s = fields_onto 0 [] s

-- `strings.Split(s, ". ")[0]`.
unfoldable pub before_period : Bytes → Bytes
before_period [] = []
before_period (c ∷ s) =
    let rest = before_period s in if has_prefix (c ∷ s) (text ". ") then [] else c ∷ rest

-- The first sentence, without extra white space.
unfoldable pub first_sentence : Bytes → Bytes
unfolding fields before_period
first_sentence description = before_period (join (fields description) b' ')
