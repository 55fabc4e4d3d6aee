-- ===== src/Exporter/ConfigPage/Hidden.antt =====
-- What the page of main.go shows of the secrets.
use snmp_exporter.Common.{◌≡◌, ap, ◌∙◌, false, List, Option}
use snmp_exporter.Common.Text.{Bytes}
use snmp_exporter.Config.Auth.{Auth}
use snmp_exporter.Config.Marshal.{AuthFields, auths_fields}
use snmp_exporter.Config.Marshal.Hidden.{AllAlike, auths_fields-AllAlike}
use snmp_exporter.Exporter.Request.{Config}
use snmp_exporter.Exporter.ConfigPage.{page_of, config_page}

-- Whatever the YAML library does with the fields that it is given, configurations that differ in nothing
-- but what the secrets of their auths are have the same page, so that it says no more of a secret than
-- whether it is empty.
pub config_page-AllAlike :
    {M : Type 0} (marshal : List (Bytes × AuthFields) → List (Bytes × M) → Option Bytes)
    (c d : Config Auth M)
    → AllAlike c.auths d.auths
    → c.modules ≡ d.modules
    → config_page marshal c ≡ config_page marshal d
unfolding config_page
config_page-AllAlike marshal c d h m =
    ap (λ a. page_of (marshal a c.modules)) (auths_fields-AllAlike c.auths d.auths h)
    ∙ ap (λ l. page_of (marshal (auths_fields false d.auths) l)) m
