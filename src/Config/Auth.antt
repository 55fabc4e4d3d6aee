-- ===== src/Config/Auth.antt =====
-- Authentication settings of config/config.go: `Auth`, `DefaultAuth`, the checks of
-- `(*Auth).UnmarshalYAML`, and `(Auth).ConfigureSNMP`.
pub mod Valid
use snmp_exporter.Common.{
  ℕ, zero, suc, ◌+◌, ◌≡◌, refl, Bool, true, false, not, ◌&&◌, ◌||◌, List, [], ◌∷◌, ◌++◌, arith, leb,
  ltb, ◌==◌, if◌then◌else◌, Option, some, none,
}
use snmp_exporter.Common.Int.{ℤ, pos, negsuc}
use snmp_exporter.Common.Text.{Bytes, text, equal}

pub record Auth : Type 0 where
  pub community : Bytes
  pub security_level : Bytes
  pub username : Bytes
  pub password : Bytes
  pub auth_protocol : Bytes
  pub priv_protocol : Bytes
  pub priv_password : Bytes
  pub context_name : Bytes
  pub version : ℤ

-- `DefaultAuth`.
unfoldable pub default_auth : Auth
default_auth = record {
  community = text "public";
  security_level = text "noAuthNoPriv";
  username = [];
  password = [];
  auth_protocol = text "MD5";
  priv_protocol = text "DES";
  priv_password = [];
  context_name = [];
  version = pos 2;
}

-- The errors of `UnmarshalYAML`; `yaml_error` is the decoder's own.
pub data AuthError : Type 0 where
  yaml_error bad_version missing_priv_password bad_priv_protocol : AuthError
  missing_password bad_auth_protocol missing_username bad_security_level : AuthError

unfoldable pub version_in_range : ℤ → Bool
version_in_range (pos n) = leb 1 n && leb n 3
version_in_range (negsuc n) = false

unfoldable pub is_version_3 : ℤ → Bool
is_version_3 (pos n) = n == 3
is_version_3 (negsuc n) = false

abbrev one_of : Bytes → List Bytes → Bool
one_of x [] = false
one_of x (y ∷ l) = equal x y || one_of x l

unfoldable pub is_priv_protocol : Bytes → Bool
is_priv_protocol p =
    one_of p (
      text "DES"
      ∷ text "AES"
      ∷ text "AES192"
      ∷ text "AES192C"
      ∷ text "AES256"
      ∷ text "AES256C"
      ∷ [])

unfoldable pub is_auth_protocol : Bytes → Bool
is_auth_protocol p =
    one_of p
      (text "MD5" ∷ text "SHA" ∷ text "SHA224" ∷ text "SHA256" ∷ text "SHA384" ∷ text "SHA512" ∷ [])

-- The case "noAuthNoPriv", and what the cases above it fall through to.
unfoldable pub check_user : Auth → Option AuthError
check_user c = if equal c.username [] then some missing_username else none

-- The case "authNoPriv".
unfoldable pub check_auth : Auth → Option AuthError
check_auth c =
    if equal c.password []
    then some missing_password
    else if not (is_auth_protocol c.auth_protocol)
    then some bad_auth_protocol
    else check_user c

-- The case "authPriv".
unfoldable pub check_priv : Auth → Option AuthError
check_priv c =
    if equal c.priv_password []
    then some missing_priv_password
    else if not (is_priv_protocol c.priv_protocol)
    then some bad_priv_protocol
    else check_auth c

-- The checks behind the decoding.
unfoldable pub check : Auth → Option AuthError
check c =
    if not (version_in_range c.version)
    then some bad_version
    else if not (is_version_3 c.version)
    then none
    else if equal c.security_level (text "authPriv")
    then check_priv c
    else if equal c.security_level (text "authNoPriv")
    then check_auth c
    else if equal c.security_level (text "noAuthNoPriv")
    then check_user c
    else some bad_security_level

pub data Loaded : Type 0 where
  loaded : Auth → Loaded
  refused : AuthError → Loaded

-- `(*Auth).UnmarshalYAML`: the decoder fills in the fields of the default that the text names;
-- `none` is its error.
unfoldable pub unmarshal_yaml : (Auth → Option Auth) → Loaded
unmarshal_yaml unmarshal = elim (unmarshal default_auth) [
  | none ↦ refused yaml_error
  | some c ↦ elim (check c) [ none ↦ loaded c | some e ↦ refused e ]
]

pub data SnmpVersion : Type 0 where
  version_1 version_2c version_3 : SnmpVersion

pub data MsgFlags : Type 0 where
  no_auth_no_priv auth_no_priv auth_priv : MsgFlags

-- The protocols; `unset` is the zero value that a field keeps where no case assigns it.
pub data AuthenticationProtocol : Type 0 where
  unset sha sha224 sha256 sha384 sha512 md5 : AuthenticationProtocol

pub data PrivacyProtocol : Type 0 where
  unset des aes aes192 aes192c aes256 aes256c : PrivacyProtocol

-- `gosnmp.UsmSecurityParameters`.
pub record Usm : Type 0 where
  pub user_name : Bytes
  pub authentication_passphrase : Bytes
  pub authentication_protocol : AuthenticationProtocol
  pub privacy_passphrase : Bytes
  pub privacy_protocol : PrivacyProtocol

-- The fields of `gosnmp.GoSNMP` that `ConfigureSNMP` assigns. `user_security` says that the
-- security model is the user-based one.
pub record GoSnmp : Type 0 where
  pub version : SnmpVersion
  pub community : Bytes
  pub context_name : Bytes
  pub user_security : Bool
  pub msg_flags : MsgFlags
  pub security_parameters : Option Usm

unfoldable pub snmp_version : ℤ → SnmpVersion → SnmpVersion
snmp_version (negsuc n) v = v
snmp_version (pos n) v =
    if n == 1 then version_1 else if n == 2 then version_2c else if n == 3 then version_3 else v

unfoldable pub authentication_protocol : Bytes → AuthenticationProtocol
authentication_protocol p =
    if equal p (text "SHA")
    then sha
    else if equal p (text "SHA224")
    then sha224
    else if equal p (text "SHA256")
    then sha256
    else if equal p (text "SHA384")
    then sha384
    else if equal p (text "SHA512")
    then sha512
    else if equal p (text "MD5")
    then md5
    else AuthenticationProtocol.unset

unfoldable pub privacy_protocol : Bytes → PrivacyProtocol
privacy_protocol p =
    if equal p (text "DES")
    then des
    else if equal p (text "AES")
    then aes
    else if equal p (text "AES192")
    then aes192
    else if equal p (text "AES192C")
    then aes192c
    else if equal p (text "AES256")
    then aes256
    else if equal p (text "AES256C")
    then aes256c
    else PrivacyProtocol.unset

-- The `switch` on the security level: the flags, and whether `auth` and `priv` are set.
unfoldable pub msg_flags : Bytes → MsgFlags → MsgFlags
msg_flags level flags =
    if equal level (text "noAuthNoPriv")
    then no_auth_no_priv
    else if equal level (text "authNoPriv")
    then auth_no_priv
    else if equal level (text "authPriv")
    then auth_priv
    else flags

unfoldable pub uses_auth : Bytes → Bool
uses_auth level = equal level (text "authNoPriv") || equal level (text "authPriv")

unfoldable pub uses_priv : Bytes → Bool
uses_priv level = equal level (text "authPriv")

unfoldable pub usm_of : Auth → Usm
usm_of c = record {
  user_name = c.username;
  authentication_passphrase = if uses_auth c.security_level then c.password else [];
  authentication_protocol =
      if uses_auth c.security_level
      then authentication_protocol c.auth_protocol
      else AuthenticationProtocol.unset;
  privacy_passphrase = if uses_priv c.security_level then c.priv_password else [];
  privacy_protocol =
      if uses_priv c.security_level
      then privacy_protocol c.priv_protocol
      else PrivacyProtocol.unset;
}

-- `(Auth).ConfigureSNMP`.
unfoldable pub configure_snmp : Auth → GoSnmp → Bytes → GoSnmp
unfolding snmp_version
configure_snmp c g snmp_context = record {
  version = snmp_version c.version g.version;
  community = c.community;
  context_name = if equal snmp_context [] then c.context_name else snmp_context;
  user_security = true;
  msg_flags = msg_flags c.security_level g.msg_flags;
  security_parameters = some (usm_of c);
}
