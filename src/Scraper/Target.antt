-- ===== src/Scraper/Target.antt =====
-- `NewGoSNMP` of scraper/gosnmp.go: the transport, the host and the port that a target names, with
-- `net.SplitHostPort`.
pub mod Parsed
use snmp_exporter.Common.{
  ℕ, ◌≡◌, Bool, true, false, not, ◌&&◌, ◌||◌, List, [], ◌∷◌, ◌++◌, drop, leb, ◌==◌, if◌then◌else◌,
  any, Option, some, none, ◌>>=◌,
}
use snmp_exporter.Common.Int.{ℤ, pos, negsuc}
use snmp_exporter.Common.Text.{Bytes, equal, has_prefix, text}
use snmp_exporter.Common.Decimal.{atoi, is_int}

-- The texts before and after the first and the last `b`.
unfoldable pub cut_at_first : ℕ → Bytes → Option (Bytes × Bytes)
cut_at_first b [] = none
cut_at_first b (c ∷ s) =
    let rest = cut_at_first b s in
    if c == b then some ([], s) else (elim rest [ some (l, r) ↦ some (c ∷ l, r) | none ↦ none ])

unfoldable pub cut_at_last : ℕ → Bytes → Option (Bytes × Bytes)
cut_at_last b [] = none
cut_at_last b (c ∷ s) = elim (cut_at_last b s) [
  | some (l, r) ↦ some (c ∷ l, r)
  | none ↦ if c == b then some ([], s) else none
]

abbrev pub has_byte : ℕ → Bytes → Bool
has_byte b = any (λ c. c == b)

-- A host in brackets: the first `]` stands just before the last `:`.
unfoldable pub bracketed : Bytes → Bytes → Option (Bytes × Bytes)
unfolding cut_at_first
bracketed s port = elim (cut_at_first b']' s) [
  | none ↦ none
  | some (host, rest) ↦
      if not (equal rest (b':' ∷ port)) || has_byte b'[' s || has_byte b']' rest
      then none
      else some (host, port)
]

abbrev pub plain_host : Bytes → Bytes → Option (Bytes × Bytes)
plain_host host port =
    if has_byte b':' host || has_byte b'[' (host ++ port) || has_byte b']' (host ++ port)
    then none
    else some (host, port)

-- `net.SplitHostPort`; `none` is its error.
unfoldable pub split_host_port : Bytes → Option (Bytes × Bytes)
unfolding cut_at_last bracketed
split_host_port [] = none
split_host_port (c ∷ s) = elim (cut_at_last b':' (c ∷ s)) [
  | none ↦ none
  | some (host, port) ↦ if c == b'[' then bracketed s port else plain_host host port
]

-- `strings.SplitN(target, "://", 2)`; `none` where there is one part.
unfoldable pub cut_transport : Bytes → Option (Bytes × Bytes)
cut_transport [] = none
cut_transport (c ∷ s) =
    let rest = cut_transport s in
    if has_prefix (c ∷ s) (text "://")
    then some ([], drop 3 (c ∷ s))
    else (elim rest [ some (l, r) ↦ some (c ∷ l, r) | none ↦ none ])

-- The fields of `gosnmp.GoSNMP` that the function sets, but for the source address and the logger.
pub record Client : Type 0 where
  pub transport : Bytes
  pub target : Bytes
  pub port : ℕ

pub data NewClient : Type 0 where
  client : Client → NewClient
  port_not_int port_out_of_range : Bytes → NewClient

unfoldable pub in_range : Bytes → Bytes → ℤ → NewClient
in_range transport host (negsuc n) = port_out_of_range host
in_range transport host (pos n) =
    if leb n 65535
    then client (record { transport = transport; target = host; port = n })
    else port_out_of_range host

-- A port that the target names.
unfoldable pub with_port : Bytes → Bytes → Bytes → NewClient
unfolding in_range
with_port transport host port =
    if not (is_int port) then port_not_int host else in_range transport host (atoi port)

-- The port 161, without the brackets of an IPv6 address.
unfoldable pub without_port : Bytes → Bytes → NewClient
unfolding split_host_port
without_port transport target = elim (split_host_port (target ++ text ":0")) [
  | some (host, port) ↦ client (record { transport = transport; target = host; port = 161 })
  | none ↦ client (record { transport = transport; target = target; port = 161 })
]

unfoldable pub new_client : Bytes → Bytes → NewClient
unfolding with_port without_port
new_client transport target = elim (split_host_port target) [
  | some (host, port) ↦ with_port transport host port
  | none ↦ without_port transport target
]

unfoldable pub new_gosnmp : Bytes → NewClient
unfolding new_client cut_transport
new_gosnmp target = elim (cut_transport target) [
  | some (transport, rest) ↦ new_client transport rest
  | none ↦ new_client (text "udp") target
]
