-- ===== src/Collector/Number.antt =====
-- Values as numbers: `getPduValue`, `parseDateAndTime`, `parseDateAndTimeWithPattern` and
-- `parseNtpTimestamp` of collector/collector.go. `none` is a panic; a parse error is a result.
pub mod Bounds
use snmp_exporter.Common.{
  ℕ, zero, suc, ◌+◌, ◌-◌, ◌*◌, ◌/◌, ◌%◌, ◌^◌, ◌≡◌, refl, Bool, true, false, List, [], ◌∷◌, ◌++◌,
  ltb, leb, ◌==◌, if◌then◌else◌, Option, some, none, length, take, drop, ◌>>=◌,
}
use snmp_exporter.Common.Int.{ℤ, pos, negsuc, sub_ℕ}
use snmp_exporter.Common.Text.{Bytes, text}
use snmp_exporter.Common.Decimal.{format_uint}
use snmp_exporter.Collector.Pdu.{
  Pdu, Value, float32, float64, bytes, Asn1Ber, counter64, opaque_float, opaque_double, Host,
  pdu_value_as_string,
}

-- `(*big.Int).Uint64`: the low 64 bits.
unfoldable pub uint64_of : ℤ → ℕ
uint64_of (pos n) = n % 2 ^ 64
uint64_of (negsuc n) = 2 ^ 64 - 1 - n % 2 ^ 64

-- `(*big.Int).Int64`: the low 64 bits, read with a sign.
unfoldable pub int64_of : ℤ → ℤ
unfolding uint64_of
int64_of z =
    if ltb (uint64_of z) (2 ^ 63) then pos (uint64_of z) else negsuc (2 ^ 64 - 1 - uint64_of z)

-- `float64Mantissa`.
abbrev pub float64_mantissa : ℕ
float64_mantissa = 9007199254740992

unfoldable pub counter_value : Bool → ℤ → ℕ
counter_value wrap_counters z =
    if wrap_counters then uint64_of z % float64_mantissa else uint64_of z

-- How a parse ends, where it does not panic.
pub data Parsed (F64 : Type 0) : Type 0 where
  parsed : F64 → Parsed F64
  parse_error : Parsed F64

-- A byte as "%02d".
unfoldable pub format_02d : ℕ → Bytes
format_02d n = if ltb n 10 then b'0' ∷ (b'0' + n) ∷ [] else format_uint 10 n

-- `string(v[8])` of a byte: its rune in UTF-8.
unfoldable pub byte_string : ℕ → Bytes
byte_string b = if ltb b 0x80 then b ∷ [] else (0xC0 + b / 64) ∷ (0x80 + b % 64) ∷ []

-- "%s%02d%02d" of the last three bytes.
unfoldable pub loc_string : Bytes → Bytes
unfolding byte_string format_02d
loc_string [] = []
loc_string (s ∷ []) = byte_string s
loc_string (s ∷ h ∷ []) = byte_string s ++ format_02d h
loc_string (s ∷ h ∷ m ∷ v) = byte_string s ++ (format_02d h ++ format_02d m)

-- The arguments of `time.Date`: the year from two bytes, and the nanoseconds from tenths.
unfoldable pub date_fields : Bytes → List ℕ
date_fields (y1 ∷ y2 ∷ mo ∷ d ∷ h ∷ mi ∷ s ∷ t ∷ v) =
    (y1 * 256 + y2) ∷ mo ∷ d ∷ h ∷ mi ∷ s ∷ t * 100000000 ∷ []
date_fields _ = []

unfoldable pub be_uint32 : ℕ → Bytes → ℕ
be_uint32 n [] = n
be_uint32 n (b ∷ v) = be_uint32 (n * 256 + b) v

-- `time.Unix(secs, nanos).Unix()`: whole seconds of nanoseconds are carried over.
unfoldable pub ntp_seconds : ℕ → ℕ → ℤ
ntp_seconds secs fraction = sub_ℕ (secs + fraction * 1000000000 / 2 ^ 32 / 1000000000) 2208988800

module _ {F32 F64 : Type 0} (host : Host F32 F64) where
  -- `getPduValue`. A value of another type than the variable says makes the assertion panic.
  unfoldable pub get_pdu_value : Bool → Pdu F32 F64 → Option F64
  unfolding counter_value int64_of
  get_pdu_value wrap_counters pdu = elim (pdu.typ) [
    | counter64 ↦ some (host.f64_of_uint (counter_value wrap_counters (host.to_big_int pdu.value)))
    | opaque_float ↦ elim (pdu.value) [ float32 v ↦ some (host.f64_of_f32 v) | _ ↦ none ]
    | opaque_double ↦ elim (pdu.value) [ float64 v ↦ some v | _ ↦ none ]
    | _ ↦ some (host.f64_of_int (int64_of (host.to_big_int pdu.value)))
  ]

  unfoldable pub date_and_time : Bytes → Parsed F64
  unfolding loc_string date_fields
  date_and_time v =
      if length v == 8
      then parsed (host.f64_of_int (host.date_unix (date_fields v) (pos 0)))
      else if length v == 11
      then (elim (host.parse_zone (loc_string (drop 8 v))) [
        | none ↦ parse_error
        | some zone ↦ parsed (host.f64_of_int (host.date_unix (date_fields v) zone))
      ])
      else parse_error

  -- `parseDateAndTime`: 8 bytes in UTC, or 11 with the time zone.
  unfoldable pub parse_date_and_time : Pdu F32 F64 → Parsed F64
  unfolding date_and_time
  parse_date_and_time pdu = elim (pdu.value) [ bytes v ↦ date_and_time v | _ ↦ parse_error ]

  -- `parseDateAndTimeWithPattern`.
  unfoldable pub parse_date_and_time_with_pattern : Bytes → Pdu F32 F64 → Option (Parsed F64)
  parse_date_and_time_with_pattern pattern pdu = do
    pdu_value ← pdu_value_as_string host pdu (text "DisplayString") []
    some (elim (host.pattern_unix pdu_value pattern) [
      | none ↦ parse_error
      | some t ↦ parsed (host.f64_of_int t)
    ])

  unfoldable pub ntp_timestamp : Bytes → Parsed F64
  unfolding be_uint32 ntp_seconds
  ntp_timestamp v =
      if ltb (length v) 8
      then parse_error
      else parsed
          (host.f64_of_int (ntp_seconds (be_uint32 0 (take 4 v)) (be_uint32 0 (take 4 (drop 4 v)))))

  -- `parseNtpTimestamp`.
  unfoldable pub parse_ntp_timestamp : Pdu F32 F64 → Parsed F64
  unfolding ntp_timestamp
  parse_ntp_timestamp pdu = elim (pdu.value) [ bytes v ↦ ntp_timestamp v | _ ↦ parse_error ]
