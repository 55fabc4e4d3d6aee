-- ===== src/Tests/Scraper.antt =====
-- The theorems on the target of a request at targets.
use snmp_exporter.Common.{◌≡◌, refl, [], ◌∷◌, ◌++◌, arith}
use snmp_exporter.Common.Int.{pos}
use snmp_exporter.Common.Text.{Lacks, text, equal, has_prefix}
use snmp_exporter.Common.Decimal.{itoa, is_int, atoi}
use snmp_exporter.Scraper.Target.{
  client, new_gosnmp, new_client, without_port, with_port, in_range, split_host_port, bracketed,
  cut_at_first, cut_at_last, cut_transport, port_out_of_range,
}
use snmp_exporter.Scraper.Target.Parsed.{IsFree, in_brackets, new_gosnmp-parts}

tcp-Lacks : Lacks b':' (text "tcp")
unfolding text
tcp-Lacks = ground arith

six-IsFree : IsFree (text "::1")
unfolding text
six-IsFree = ground arith

new_gosnmp-parts_example :
    new_gosnmp
      (text "tcp" ++ text "://" ++ ((b'[' ∷ text "::1" ++ b']' ∷ []) ++ b':' ∷ itoa (pos 1161)))
    ≡ client (record { transport = text "tcp"; target = text "::1"; port = 1161 })
new_gosnmp-parts_example =
    new_gosnmp-parts (text "tcp") (b'[' ∷ text "::1" ++ b']' ∷ []) (text "::1") 1161 tcp-Lacks
      (in_brackets six-IsFree) (omega arith)

-- From the tests of the repository: an IPv6 address in brackets.
ipv6_run :
    new_gosnmp (text "[::1]")
    ≡ client (record { transport = text "udp"; target = text "::1"; port = 161 })
unfolding new_gosnmp new_client without_port split_host_port bracketed cut_at_first cut_at_last
    cut_transport text equal has_prefix
ipv6_run = refl

too_large : new_gosnmp (text "switch:70000") ≡ port_out_of_range (text "switch")
unfolding new_gosnmp new_client with_port in_range split_host_port bracketed cut_at_first
    cut_at_last cut_transport text equal has_prefix is_int atoi
too_large = refl
