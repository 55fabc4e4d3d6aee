-- ===== src/Tests/Config.antt =====
-- The theorems on the authentication settings at inputs.
use snmp_exporter.Config.Environment.{
  substitute_env_variables, substituted, not_found, expand_from, get_shell_name, name_in_braces,
  before_brace, alpha_num_prefix, is_alpha_num, is_shell_special_var, substitution,
}
use snmp_exporter.Config.Environment.Expanded.{substitute_env_variables-braces}
use snmp_exporter.Common.{◌++◌, ◌∷◌, if◌then◌else◌, Option, arith}
use snmp_exporter.Common.Text.{Lacks, Bytes}
use snmp_exporter.Common.{◌≡◌, refl, true, false, [], none, some}
use snmp_exporter.Common.Text.{text, equal}
use snmp_exporter.Common.Int.{pos}
use snmp_exporter.Config.Auth.{
  Auth, check, check_priv, check_auth, check_user, version_in_range, is_version_3, is_priv_protocol,
  is_auth_protocol, GoSnmp, Usm, version_1, no_auth_no_priv, configure_snmp, unmarshal_yaml,
  default_auth, loaded, refused, missing_username,
}
use snmp_exporter.Config.Auth.Valid.{Usable, check-Usable}

abbrev v3_auth : Auth
v3_auth = record {
  community = [];
  security_level = text "authPriv";
  username = text "admin";
  password = text "secret";
  auth_protocol = text "SHA256";
  priv_protocol = text "AES";
  priv_password = text "hidden";
  context_name = [];
  version = pos 3;
}

abbrev fresh : GoSnmp
fresh = record {
  version = version_1;
  community = [];
  context_name = [];
  user_security = false;
  msg_flags = no_auth_no_priv;
  security_parameters = none;
}

v3_checked : check v3_auth ≡ none
unfolding check check_priv check_auth check_user version_in_range is_version_3 is_priv_protocol
    is_auth_protocol equal text
v3_checked = refl

v3_is_3 : is_version_3 v3_auth.version ≡ true
unfolding is_version_3
v3_is_3 = refl

-- The default is for SNMPv2c and names no user.
default_loaded : unmarshal_yaml some ≡ loaded default_auth
unfolding unmarshal_yaml check version_in_range is_version_3 default_auth
default_loaded = refl

default_v3_refused :
    unmarshal_yaml (λ c. some (record c { version = pos 3 })) ≡ refused missing_username
unfolding unmarshal_yaml check check_user version_in_range is_version_3 default_auth equal text
default_v3_refused = refl

check-Usable_example :
    (u : Usm) × ((configure_snmp v3_auth fresh []).security_parameters ≡ some u)
    × Usable (configure_snmp v3_auth fresh []).msg_flags u
check-Usable_example = check-Usable v3_auth fresh [] v3_checked v3_is_3

abbrev vars : Bytes → Option Bytes
vars name = if equal name (text "PW") then some (text "a$b") else none

prefix-Lacks : Lacks b'$' (text "x-")
unfolding text
prefix-Lacks = ground arith

name-Lacks : Lacks b'}' (text "PW")
unfolding text
name-Lacks = ground arith

substitute_env_variables-braces_example :
    substitute_env_variables vars (text "x-" ++ (b'$' ∷ b'{' ∷ (text "PW" ++ b'}' ∷ [])))
    ≡ substituted (text "x-a$b")
unfolding text equal
substitute_env_variables-braces_example =
    substitute_env_variables-braces vars (text "x-") [] b'P' (text "W") prefix-Lacks tt name-Lacks

missing_run : substitute_env_variables vars (text "$PW1/${9}$") ≡ not_found (text "PW1")
unfolding substitute_env_variables expand_from get_shell_name name_in_braces before_brace
    alpha_num_prefix is_alpha_num is_shell_special_var substitution text equal
missing_run = refl
