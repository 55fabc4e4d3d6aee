-- ===== src/Tests/Marshal.antt =====
-- The theorem on the secrets of a configuration at two that differ in one.
use snmp_exporter.Common.{◌≡◌, refl, List, [], ◌∷◌, Option, none}
use snmp_exporter.Common.Text.{Bytes, text}
use snmp_exporter.Config.Auth.{Auth, default_auth}
use snmp_exporter.Config.Marshal.{AuthFields, auths_fields, auth_fields, marshal_secret}
use snmp_exporter.Config.Marshal.Hidden.{AllAlike}
use snmp_exporter.Exporter.Request.{Config}
use snmp_exporter.Exporter.ConfigPage.{content, config_page}
use snmp_exporter.Exporter.ConfigPage.Hidden.{config_page-AllAlike}

abbrev with_password : Bytes → List (Bytes × Auth)
with_password s = (text "a", record default_auth { password = s }) ∷ []

passwords-AllAlike : AllAlike (with_password (text "one")) (with_password (text "other"))
unfolding text default_auth
passwords-AllAlike = (
  refl,
  (
    record {
      community = tt;
      password = tt;
      priv_password = tt;
      security_level = refl;
      username = refl;
      auth_protocol = refl;
      priv_protocol = refl;
      context_name = refl;
      version = refl;
    },
    tt,
  ),
)

abbrev config_with : Bytes → Config Auth Bytes
config_with s = record { auths = with_password s; modules = (text "if_mib", text "walk") ∷ [] }

-- A library that writes the password that it is given.
abbrev first_password : List (Bytes × AuthFields) → List (Bytes × Bytes) → Option Bytes
first_password [] modules = none
first_password ((name, auth) ∷ auths) modules = auth.password

page_run : config_page first_password (config_with (text "one")) ≡ content (text "<secret>")
unfolding config_page auths_fields auth_fields marshal_secret text
page_run = refl

config_page-AllAlike_example :
    config_page first_password (config_with (text "one"))
    ≡ config_page first_password (config_with (text "other"))
config_page-AllAlike_example =
    config_page-AllAlike first_password (config_with (text "one")) (config_with (text "other"))
      passwords-AllAlike refl
