-- ===== src/Collector/Sample/Bits.antt =====
-- The bits of a BITS value, against the list of its bits from the most significant one on.
use snmp_exporter.Common.{
  ℕ, zero, suc, ◌+◌, ◌-◌, ◌*◌, ◌/◌, ◌%◌, ◌^◌, ◌≡◌, refl, ap, ◌∙◌, Bool, false, List, [], ◌∷◌, arith,
  ltb, ◌==◌, if◌then◌else◌, some, map, length, All,
}
use snmp_exporter.Common.Int.{ℤ, pos, negsuc}
use snmp_exporter.Common.Text.{Bytes}
use snmp_exporter.Collector.Index.{EnumMap}
use snmp_exporter.Collector.Pdu.{bytes, Host}
use snmp_exporter.Collector.Sample.{
  Metric, Sample, LabelPairs, byte_at, bit_set, bit_samples, bits, state_sample, one, nil,
}

-- The bits of a byte and of bytes, the most significant one first.
abbrev pub byte_bits : ℕ → List Bool → List Bool
byte_bits b rest =
    (b / 128 % 2 == 1)
    ∷ (b / 64 % 2 == 1)
    ∷ (b / 32 % 2 == 1)
    ∷ (b / 16 % 2 == 1)
    ∷ (b / 8 % 2 == 1)
    ∷ (b / 4 % 2 == 1)
    ∷ (b / 2 % 2 == 1)
    ∷ (b % 2 == 1)
    ∷ rest

unfoldable pub bit_list : Bytes → List Bool
bit_list [] = []
bit_list (b ∷ bs) = byte_bits b (bit_list bs)

-- The bit at a place of a list, and false behind its end.
unfoldable pub bit_at : List Bool → ℕ → Bool
bit_at [] k = false
bit_at (b ∷ l) zero = b
bit_at (b ∷ l) (suc k) = bit_at l k

read_bit : Bytes → ℕ → Bool
read_bit bs k =
    if ltb k (length bs * 8) then byte_at bs (k / 8) / 2 ^ (7 - k % 8) % 2 == 1 else false

-- Bit 8 + k of the bytes is bit k of the bytes behind the first.
read_bit-skip : (b : ℕ) (bs : Bytes) (k : ℕ) → read_bit (b ∷ bs) (8 + k) ≡ read_bit bs k
unfolding read_bit byte_at
read_bit-skip b bs k =
    let same_byte : (8 + k) / 8 ≡ suc (k / 8) = omega arith in
    let same_bit : (8 + k) % 8 ≡ k % 8 = omega arith in
    let same_test : ltb (8 + k) (length (b ∷ bs) * 8) ≡ ltb k (length bs * 8) = ground arith in
    rw (same_test, same_byte, same_bit) refl

read_bit-lem : (bs : Bytes) (k : ℕ) → read_bit bs k ≡ bit_at (bit_list bs) k
unfolding read_bit bit_list bit_at byte_at
read_bit-lem [] k = ground arith
read_bit-lem (b ∷ bs) (suc (suc (suc (suc (suc (suc (suc (suc k)))))))) =
    ap (read_bit (b ∷ bs)) (omega arith) ∙ (read_bit-skip b bs k ∙ read_bit-lem bs k)
read_bit-lem (b ∷ bs) k = ground arith

bit_set-lem : (bs : Bytes) (k : ℕ) → bit_set bs (pos k) ≡ some (bit_at (bit_list bs) k)
unfolding bit_set read_bit
bit_set-lem bs k = ap some (read_bit-lem bs k)

-- The bit that a number of the enum names.
unfoldable pub named_bit : Bytes → ℤ → Bool
named_bit bs (pos k) = bit_at (bit_list bs) k
named_bit bs (negsuc k) = false

abbrev pub IsNatural : ℤ × Bytes → Type 0
IsNatural (pos k, v) = Unit
IsNatural (negsuc k, v) = ⊥

module _ {F32 F64 : Type 0} (host : Host F32 F64) where
  abbrev pub named_sample : Metric F64 → Bytes → LabelPairs → ℤ × Bytes → Sample F64
  named_sample metric bs labels e =
      state_sample host metric labels (if named_bit bs e.0 then one host else nil host) e.1

  bit_samples-lem :
      (metric : Metric F64) (bs : Bytes) (labels : LabelPairs) (enums : EnumMap)
      → All IsNatural enums
      → bit_samples host metric bs labels enums ≡ some (map (named_sample metric bs labels) enums)
  unfolding bit_samples named_bit
  bit_samples-lem metric bs labels [] h = refl
  bit_samples-lem metric bs labels ((pos k, v) ∷ enums) (n, h) =
      rw (bit_set-lem bs k, bit_samples-lem metric bs labels enums h) refl
  bit_samples-lem metric bs labels ((negsuc k, v) ∷ enums) (n, h) = absurd n

  -- Of bytes, `bits` makes one sample for each name of the enum, 1 where the bit of that number is
  -- set, counting from the most significant bit of the first byte, and 0 where it is not set or the
  -- bytes end before it; the numbers of the enum are not negative.
  pub bits-lem :
      (metric : Metric F64) (bs : Bytes) (labels : LabelPairs)
      → All IsNatural metric.enum_values
      → bits host metric (bytes bs) labels
        ≡ some (map (named_sample metric bs labels) metric.enum_values)
  unfolding bits
  bits-lem metric bs labels h = bit_samples-lem metric bs labels metric.enum_values h
