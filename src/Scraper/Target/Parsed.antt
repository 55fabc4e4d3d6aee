-- ===== src/Scraper/Target/Parsed.antt =====
-- What `NewGoSNMP` of scraper/gosnmp.go reads out of a target.
use snmp_exporter.Common.{
  ℕ, ◌≤◌, ◌≡◌, refl, false, not, ◌||◌, [], ◌∷◌, ◌++◌, leb, some, none, arith, Bool-cases, if_ind,
  Option-cases, inl, inr, append_assoc,
}
use snmp_exporter.Common.Int.{ℤ, pos, negsuc}
use snmp_exporter.Common.Text.{Bytes, Lacks, has_prefix, text, equal_refl}
use snmp_exporter.Common.Decimal.{atoi, is_int, itoa, atoi-itoa, is_int-itoa, itoa-Lacks-above}
use snmp_exporter.Scraper.Target.{
  bracketed, cut_at_first, cut_at_last, has_byte, plain_host, split_host_port, cut_transport,
  NewClient, client, port_not_int, in_range, with_port, without_port, new_client, new_gosnmp,
}

cut_at_last-none : (b : ℕ) (s : Bytes) → Lacks b s → cut_at_last b s ≡ none
unfolding cut_at_last
cut_at_last-none b [] h = refl
cut_at_last-none b (c ∷ s) (p, h) = rw (cut_at_last-none b s h) (ground arith)

cut_at_last-Lacks : (b : ℕ) (l r : Bytes) → Lacks b r → cut_at_last b (l ++ b ∷ r) ≡ some (l, r)
unfolding cut_at_last
cut_at_last-Lacks b [] r h = rw (cut_at_last-none b r h) (ground arith)
cut_at_last-Lacks b (c ∷ l) r h = rw (cut_at_last-Lacks b l r h) refl

has_byte-Lacks : (b : ℕ) (s : Bytes) → Lacks b s → has_byte b s ≡ false
has_byte-Lacks b [] h = refl
has_byte-Lacks b (c ∷ s) (p, h) = ground (arith, has_byte-Lacks b s h)

has_byte-append : (b : ℕ) (l r : Bytes) → has_byte b (l ++ r) ≡ (has_byte b l || has_byte b r)
has_byte-append b [] r = refl
has_byte-append b (c ∷ l) r = ground (arith, has_byte-append b l r)

cut_transport-Lacks :
    (t r : Bytes) → Lacks b':' t → cut_transport (t ++ text "://" ++ r) ≡ some (t, r)
unfolding cut_transport has_prefix text
cut_transport-Lacks [] r h = refl
cut_transport-Lacks (c ∷ t) r (p, h) = ground (arith, cut_transport-Lacks t r h)

-- A host without brackets and colons.
abbrev pub IsPlain : Bytes → Type 0
IsPlain s = Lacks b':' s × (Lacks b'[' s × Lacks b']' s)

-- A host without brackets.
abbrev pub IsFree : Bytes → Type 0
IsFree s = Lacks b'[' s × Lacks b']' s

-- How a host is written before a port: as it is, or in brackets like an IPv6 address.
pub data Writes : Bytes → Bytes → Type 0 where
  plain : {host : Bytes} → IsPlain host → Writes host host
  in_brackets : {host : Bytes} → IsFree host → Writes (b'[' ∷ host ++ b']' ∷ []) host

plain_host-IsPlain :
    (host port : Bytes) → IsPlain host → IsPlain port → plain_host host port ≡ some (host, port)
plain_host-IsPlain host port (a, (b, c)) (_, (d, e)) = ground (
  arith,
  has_byte-Lacks b':' host a,
  has_byte-Lacks b'[' host b,
  has_byte-Lacks b']' host c,
  has_byte-Lacks b'[' port d,
  has_byte-Lacks b']' port e,
  has_byte-append b'[' host port,
  has_byte-append b']' host port,
)

split_host_port-IsPlain :
    (host port : Bytes)
    → IsPlain host
    → IsPlain port
    → split_host_port (host ++ b':' ∷ port) ≡ some (host, port)
unfolding split_host_port cut_at_last
split_host_port-IsPlain [] port h p =
    rw (cut_at_last-none b':' port p.0, split_host_port, cut_at_last)
      (plain_host-IsPlain [] port h p)
split_host_port-IsPlain (c ∷ host) port h p =
    rw (cut_at_last-Lacks b':' host port p.0, split_host_port, cut_at_last)
      (ground (arith, plain_host-IsPlain (c ∷ host) port h p))

itoa-IsPlain : (n : ℕ) → IsPlain (itoa (pos n))
itoa-IsPlain n = (
  itoa-Lacks-above b':' n (omega arith),
  (itoa-Lacks-above b'[' n (omega arith), itoa-Lacks-above b']' n (omega arith)),
)

with_port-itoa :
    (transport host : Bytes) (n : ℕ)
    → n ≤ 65535
    → with_port transport host (itoa (pos n))
      ≡ client (record { transport = transport; target = host; port = n })
unfolding with_port in_range
with_port-itoa transport host n h =
    rw (is_int-itoa n (omega arith), atoi-itoa (pos n) (omega arith)) (ground arith)

cut_at_first-Lacks : (b : ℕ) (l r : Bytes) → Lacks b l → cut_at_first b (l ++ b ∷ r) ≡ some (l, r)
unfolding cut_at_first
cut_at_first-Lacks b [] r h = ground arith
cut_at_first-Lacks b (c ∷ l) r (p, h) = rw (cut_at_first-Lacks b l r h) (ground arith)

bracketed-IsFree :
    (host port : Bytes)
    → Lacks b'[' host
    → Lacks b']' host
    → IsPlain port
    → bracketed ((host ++ b']' ∷ []) ++ b':' ∷ port) port ≡ some (host, port)
unfolding bracketed
bracketed-IsFree host port f g (_, (d, e)) =
    let rest = b':' ∷ port in
    rw (append_assoc host (b']' ∷ []) rest) (
      rw (cut_at_first-Lacks b']' host rest g, bracketed)
        (ground (
          arith,
          equal_refl rest,
          has_byte-append b'[' host (b']' ∷ rest),
          has_byte-Lacks b'[' host f,
          has_byte-Lacks b'[' port d,
          has_byte-Lacks b']' port e,
        )))

split_host_port-brackets :
    (host port : Bytes)
    → IsFree host
    → IsPlain port
    → split_host_port ((b'[' ∷ host ++ b']' ∷ []) ++ b':' ∷ port) ≡ some (host, port)
unfolding split_host_port
split_host_port-brackets host port (f, g) p =
    rw (cut_at_last-Lacks b':' (b'[' ∷ host ++ b']' ∷ []) port p.0, split_host_port)
      (bracketed-IsFree host port f g p)

split_host_port-Writes :
    (written host port : Bytes)
    → Writes written host
    → IsPlain port
    → split_host_port (written ++ b':' ∷ port) ≡ some (host, port)
split_host_port-Writes _ host port (plain p) q = split_host_port-IsPlain host port p q
split_host_port-Writes _ host port (in_brackets f) q = split_host_port-brackets host port f q

-- A target of a transport, a host and a port of 16 bits is taken apart into these, where the host is
-- written in brackets, or has no colon; no brackets are in the host itself.
pub new_gosnmp-parts :
    (transport written host : Bytes) (n : ℕ)
    → Lacks b':' transport
    → Writes written host
    → n ≤ 65535
    → new_gosnmp (transport ++ text "://" ++ (written ++ b':' ∷ itoa (pos n)))
      ≡ client (record { transport = transport; target = host; port = n })
unfolding new_gosnmp new_client
new_gosnmp-parts transport written host n t w p =
    rw (cut_transport-Lacks transport (written ++ b':' ∷ itoa (pos n)) t, new_gosnmp)
      (rw (split_host_port-Writes written host (itoa (pos n)) w (itoa-IsPlain n), new_client)
        (with_port-itoa transport host n p))

-- The port of a client, or 0 where there is none.
abbrev pub port_of : NewClient → ℕ
port_of (client c) = c.port
port_of _ = 0

in_range-bound : (transport host : Bytes) (z : ℤ) → port_of (in_range transport host z) ≤ 65535
unfolding in_range
in_range-bound transport host (negsuc n) = omega arith
in_range-bound transport host (pos n) = elim (Bool-cases (leb n 65535)) [
  | inl p ↦ rw p (ground arith)
  | inr p ↦ rw p (omega arith)
]

with_port-bound : (transport host port : Bytes) → port_of (with_port transport host port) ≤ 65535
unfolding with_port
with_port-bound transport host port =
    if_ind (λ c. port_of c ≤ 65535) (not (is_int port)) {x = port_not_int host}
      {y = in_range transport host (atoi port)} (omega arith)
      (in_range-bound transport host (atoi port))

without_port-bound : (transport target : Bytes) → port_of (without_port transport target) ≤ 65535
unfolding without_port
without_port-bound transport target = elim (Option-cases (split_host_port (target ++ text ":0"))) [
  | inl p ↦ rw (p, without_port) (omega arith)
  | inr (q, p) ↦ rw (p, without_port) (omega arith)
]

new_client-bound : (transport target : Bytes) → port_of (new_client transport target) ≤ 65535
unfolding new_client
new_client-bound transport target = elim (Option-cases (split_host_port target)) [
  | inl p ↦ rw (p, new_client) (without_port-bound transport target)
  | inr (q, p) ↦ rw (p, new_client) (with_port-bound transport q.0 q.1)
]

-- Whatever the target, the port of its client has 16 bits.
pub new_gosnmp-bound : (target : Bytes) → port_of (new_gosnmp target) ≤ 65535
unfolding new_gosnmp
new_gosnmp-bound target = elim (Option-cases (cut_transport target)) [
  | inl p ↦ rw (p, new_gosnmp) (new_client-bound (text "udp") target)
  | inr (q, p) ↦ rw (p, new_gosnmp) (new_client-bound q.0 q.1)
]
