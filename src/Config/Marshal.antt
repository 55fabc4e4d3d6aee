-- ===== src/Config/Marshal.antt =====
-- The YAML hooks of config/config.go for secrets and regular expressions. What the library writes for
-- a field is its text; `regexp.Compile` is an argument.
pub mod Hidden
use snmp_exporter.Common.{Bool, true, false, List, [], ◌∷◌, ◌++◌, Option, some, none}
use snmp_exporter.Common.Int.{ℤ}
use snmp_exporter.Common.Text.{Bytes, text}
use snmp_exporter.Collector.Sample.{RegexpExtract}
use snmp_exporter.Config.Auth.{Auth}

-- `(Secret).MarshalYAML`, where `none` is nil.
unfoldable pub marshal_secret : Bool → Bytes → Option Bytes
marshal_secret true s = some s
marshal_secret false [] = none
marshal_secret false (c ∷ s) = some (text "<secret>")

-- A field with `omitempty` is left out where it is empty.
abbrev pub omit_empty : {X : Type 0} → (Bytes → Option X) → Bytes → Option X
omit_empty f [] = none
omit_empty f (c ∷ s) = f (c ∷ s)

-- The fields of `Auth` as they are written.
pub record AuthFields : Type 0 where
  pub community : Option Bytes
  pub security_level : Option Bytes
  pub username : Option Bytes
  pub password : Option Bytes
  pub auth_protocol : Option Bytes
  pub priv_protocol : Option Bytes
  pub priv_password : Option Bytes
  pub context_name : Option Bytes
  pub version : ℤ

-- With `DoNotHideSecrets`.
unfoldable pub auth_fields : Bool → Auth → AuthFields
unfolding marshal_secret
auth_fields do_not_hide_secrets c = record {
  community = omit_empty (marshal_secret do_not_hide_secrets) c.community;
  security_level = omit_empty some c.security_level;
  username = omit_empty some c.username;
  password = omit_empty (marshal_secret do_not_hide_secrets) c.password;
  auth_protocol = omit_empty some c.auth_protocol;
  priv_protocol = omit_empty some c.priv_protocol;
  priv_password = omit_empty (marshal_secret do_not_hide_secrets) c.priv_password;
  context_name = omit_empty some c.context_name;
  version = c.version;
}

unfoldable pub auths_fields : Bool → List (Bytes × Auth) → List (Bytes × AuthFields)
unfolding auth_fields
auths_fields do_not_hide_secrets [] = []
auths_fields do_not_hide_secrets ((name, auth) ∷ auths) =
    (name, auth_fields do_not_hide_secrets auth) ∷ auths_fields do_not_hide_secrets auths

-- `DefaultRegexpExtract`; the regular expression is nil.
unfoldable pub default_regexp_extract : RegexpExtract
unfolding text
default_regexp_extract = record { value = text "$1"; regex = [] }

-- `(*Regexp).UnmarshalYAML` on the decoded text; `none` is an error.
unfoldable pub unmarshal_regexp : {R : Type 0} → (Bytes → Option R) → Option Bytes → Option R
unmarshal_regexp compile none = none
unmarshal_regexp compile (some s) = compile (text "^(?:" ++ s ++ text ")$")

-- `(Regexp).MarshalYAML`, over `String()`.
abbrev pub marshal_regexp : {R : Type 0} → (R → Bytes) → Option R → Option Bytes
marshal_regexp string none = none
marshal_regexp string (some re) = some (string re)

-- `(*RegexpExtract).UnmarshalYAML`: the decoder fills in what the text has.
unfoldable pub unmarshal_extract : (RegexpExtract → Option RegexpExtract) → Option RegexpExtract
unfolding default_regexp_extract
unmarshal_extract unmarshal = unmarshal default_regexp_extract
