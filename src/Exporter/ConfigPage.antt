-- ===== src/Exporter/ConfigPage.antt =====
-- The page with the configuration in main.go.
pub mod Hidden
use snmp_exporter.Common.{Bool, false, List, Option, some, none}
use snmp_exporter.Common.Text.{Bytes}
use snmp_exporter.Config.Auth.{Auth}
use snmp_exporter.Config.Marshal.{AuthFields, auths_fields}
use snmp_exporter.Exporter.Request.{Config}

-- The text, or the status 500.
pub data Page : Type 0 where
  content : Bytes → Page
  internal_server_error : Page

abbrev pub page_of : Option Bytes → Page
page_of (some c) = content c
page_of none = internal_server_error

-- What the library makes of the fields and the modules is an argument; the exporter never sets
-- `DoNotHideSecrets`.
unfoldable pub config_page :
    {M : Type 0}
    → (List (Bytes × AuthFields) → List (Bytes × M) → Option Bytes)
    → Config Auth M
    → Page
unfolding auths_fields
config_page marshal config = page_of (marshal (auths_fields false config.auths) config.modules)
