-- ===== src/Collector/Number/Bounds.antt =====
-- The ranges of the numbers that values are turned into.
use snmp_exporter.Common.{ℕ, suc, ◌+◌, ◌*◌, ◌/◌, ◌^◌, ◌<◌, ◌≡◌, refl, arith}
use snmp_exporter.Common.Int.{ℤ, pos, negsuc, sub_ℕ, IsInt64}
use snmp_exporter.Collector.Number.{int64_of, ntp_seconds}

-- `r` is the residue of an integer: less than `m`, and a multiple of `m` away from it.
abbrev pub IsResidue : ℕ → ℤ → ℕ → Type 0
IsResidue m (pos n) r = (r < m) × ((k : ℕ) × (n ≡ r + k * m))
IsResidue m (negsuc n) r = (r < m) × ((k : ℕ) × (r + suc n ≡ k * m))

-- Every int64 is read as itself.
pub int64_of-IsInt64 : (z : ℤ) → IsInt64 z → int64_of z ≡ z
unfolding int64_of
int64_of-IsInt64 (pos n) h = ground arith
int64_of-IsInt64 (negsuc n) h = ground arith

-- The fraction of an NTP timestamp adds no second.
pub ntp_seconds_lem :
    (secs fraction : ℕ) → fraction < 2 ^ 32 → ntp_seconds secs fraction ≡ sub_ℕ secs 2208988800
unfolding ntp_seconds
ntp_seconds_lem secs fraction h =
    let e : secs + fraction * 1000000000 / 2 ^ 32 / 1000000000 ≡ secs = omega arith in rw e refl
