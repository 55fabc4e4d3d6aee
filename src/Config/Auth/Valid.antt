-- ===== src/Config/Auth/Valid.antt =====
-- What the checks of the configuration guarantee where the settings are used.
use snmp_exporter.Common.{◌≡◌, ◌≢◌, refl, ap, true, false, [], arith, some, none, ◌⊎◌, inl, inr}
use snmp_exporter.Common.Int.{ℤ, pos, negsuc}
use snmp_exporter.Common.Text.{Bytes, text, equal, equal_iff}
use snmp_exporter.Config.Auth.{
  Auth, AuthenticationProtocol, PrivacyProtocol, MsgFlags, auth_priv, auth_no_priv, no_auth_no_priv,
  SnmpVersion, version_1, version_2c, version_3, check, check_user, check_auth, check_priv,
  is_auth_protocol, is_priv_protocol, version_in_range, is_version_3, Usm, GoSnmp, usm_of,
  uses_auth, uses_priv, authentication_protocol, privacy_protocol, msg_flags, snmp_version,
  configure_snmp,
}

-- A protocol name that passes the check is one that `ConfigureSNMP` knows.
auth_protocol_known :
    (p : Bytes)
    → is_auth_protocol p ≡ true
    → authentication_protocol p ≢ AuthenticationProtocol.unset
unfolding is_auth_protocol authentication_protocol
auth_protocol_known p h = ground arith

priv_protocol_known :
    (p : Bytes) → is_priv_protocol p ≡ true → privacy_protocol p ≢ PrivacyProtocol.unset
unfolding is_priv_protocol privacy_protocol
priv_protocol_known p h = ground arith

-- Which flags and which parts of the settings a security level stands for.
level_priv :
    (l : Bytes) (f : MsgFlags)
    → l ≡ text "authPriv"
    → (msg_flags l f ≡ auth_priv) × (uses_auth l ≡ true) × (uses_priv l ≡ true)
unfolding msg_flags uses_auth uses_priv equal text
level_priv l f e = (ap (λ x. msg_flags x f) e, ap uses_auth e, ap uses_priv e)

level_auth :
    (l : Bytes) (f : MsgFlags)
    → l ≡ text "authNoPriv"
    → (msg_flags l f ≡ auth_no_priv) × (uses_auth l ≡ true) × (uses_priv l ≡ false)
unfolding msg_flags uses_auth uses_priv equal text
level_auth l f e = (ap (λ x. msg_flags x f) e, ap uses_auth e, ap uses_priv e)

level_user :
    (l : Bytes) (f : MsgFlags)
    → l ≡ text "noAuthNoPriv"
    → (msg_flags l f ≡ no_auth_no_priv) × (uses_auth l ≡ false) × (uses_priv l ≡ false)
unfolding msg_flags uses_auth uses_priv equal text
level_user l f e = (ap (λ x. msg_flags x f) e, ap uses_auth e, ap uses_priv e)

-- What a device needs under each kind of message: a user, and a known protocol with a passphrase
-- for each part that is on; nothing is set of a part that is off.
pub record HasAuth (u : Usm) : Type 0 where
  pub protocol : u.authentication_protocol ≢ AuthenticationProtocol.unset
  pub passphrase : u.authentication_passphrase ≢ []

pub record HasPriv (u : Usm) : Type 0 where
  pub protocol : u.privacy_protocol ≢ PrivacyProtocol.unset
  pub passphrase : u.privacy_passphrase ≢ []

pub record NoAuth (u : Usm) : Type 0 where
  pub protocol : u.authentication_protocol ≡ AuthenticationProtocol.unset
  pub passphrase : u.authentication_passphrase ≡ []

pub record NoPriv (u : Usm) : Type 0 where
  pub protocol : u.privacy_protocol ≡ PrivacyProtocol.unset
  pub passphrase : u.privacy_passphrase ≡ []

abbrev pub Usable : MsgFlags → Usm → Type 0
Usable auth_priv u = (u.user_name ≢ []) × HasAuth u × HasPriv u
Usable auth_no_priv u = (u.user_name ≢ []) × HasAuth u × NoPriv u
Usable no_auth_no_priv u = (u.user_name ≢ []) × NoAuth u × NoPriv u

checked_user : (c : Auth) → check_user c ≡ none → c.username ≢ []
unfolding check_user
checked_user c h = ground (arith, equal_iff c.username [])

checked_auth :
    (c : Auth)
    → check_auth c ≡ none
    → (c.username ≢ []) × (c.password ≢ []) × (is_auth_protocol c.auth_protocol ≡ true)
unfolding check_auth
checked_auth c h = ground (arith, equal_iff c.password [], checked_user c)

checked_priv :
    (c : Auth)
    → check_priv c ≡ none
    → (check_auth c ≡ none) × (c.priv_password ≢ []) × (is_priv_protocol c.priv_protocol ≡ true)
unfolding check_priv
checked_priv c h = ground (arith, equal_iff c.priv_password [])

usm-HasAuth :
    (c : Auth) → uses_auth c.security_level ≡ true → check_auth c ≡ none → HasAuth (usm_of c)
unfolding usm_of
usm-HasAuth c u h =
    let (user, password, protocol) = checked_auth c h in
    rw u (record { protocol = auth_protocol_known c.auth_protocol protocol; passphrase = password })

usm-HasPriv :
    (c : Auth) → uses_priv c.security_level ≡ true → check_priv c ≡ none → HasPriv (usm_of c)
unfolding usm_of
usm-HasPriv c u h =
    let (auth, password, protocol) = checked_priv c h in
    rw u (record { protocol = priv_protocol_known c.priv_protocol protocol; passphrase = password })

usm-NoAuth : (c : Auth) → uses_auth c.security_level ≡ false → NoAuth (usm_of c)
unfolding usm_of
usm-NoAuth c u = rw u (record { protocol = refl; passphrase = refl })

usm-NoPriv : (c : Auth) → uses_priv c.security_level ≡ false → NoPriv (usm_of c)
unfolding usm_of
usm-NoPriv c u = rw u (record { protocol = refl; passphrase = refl })

-- The levels that the checks let through for SNMPv3, each with its own checks passed.
checked_level :
    (c : Auth)
    → check c ≡ none
    → is_version_3 c.version ≡ true
    → ((c.security_level ≡ text "authPriv") × (check_priv c ≡ none))
      ⊎ ((c.security_level ≡ text "authNoPriv") × (check_auth c ≡ none))
      ⊎ ((c.security_level ≡ text "noAuthNoPriv") × (check_user c ≡ none))
unfolding check
checked_level c h v = ground (
  arith,
  equal_iff c.security_level (text "authPriv"),
  equal_iff c.security_level (text "authNoPriv"),
  equal_iff c.security_level (text "noAuthNoPriv"),
)

-- SNMPv3 settings that pass the checks configure a session that can be used: whatever the session
-- held before, the flags say which parts are on, each part that is on has a known protocol and a
-- passphrase, and nothing is set for a part that is off.
pub check-Usable :
    (c : Auth) (g : GoSnmp) (snmp_context : Bytes)
    → check c ≡ none
    → is_version_3 c.version ≡ true
    → (u : Usm) × ((configure_snmp c g snmp_context).security_parameters ≡ some u)
      × Usable (configure_snmp c g snmp_context).msg_flags u
unfolding configure_snmp usm_of
check-Usable c g snmp_context h v = elim (checked_level c h v) [
  | inl (l, k) ↦
      let (flags, auth, priv) = level_priv c.security_level g.msg_flags l in
      let (below, _, _) = checked_priv c k in
      (
        usm_of c,
        refl,
        rw flags ((checked_auth c below).0, usm-HasAuth c auth below, usm-HasPriv c priv k),
      )
  | inr (inl (l, k)) ↦
      let (flags, auth, priv) = level_auth c.security_level g.msg_flags l in
      (usm_of c, refl, rw flags ((checked_auth c k).0, usm-HasAuth c auth k, usm-NoPriv c priv))
  | inr (inr (l, k)) ↦
      let (flags, auth, priv) = level_user c.security_level g.msg_flags l in
      (usm_of c, refl, rw flags (checked_user c k, usm-NoAuth c auth, usm-NoPriv c priv))
]

version_cases :
    (z : ℤ) (v : SnmpVersion)
    → version_in_range z ≡ true
    → ((z ≡ pos 1) × (snmp_version z v ≡ version_1))
      ⊎ ((z ≡ pos 2) × (snmp_version z v ≡ version_2c))
      ⊎ ((z ≡ pos 3) × (snmp_version z v ≡ version_3))
unfolding version_in_range snmp_version
version_cases (pos n) v h = ground arith
version_cases (negsuc n) v h = cc

checked_version : (c : Auth) → check c ≡ none → version_in_range c.version ≡ true
unfolding check
checked_version c h = ground arith

-- Settings that pass the checks fix the version of the session, whatever it was before.
pub check-version :
    (c : Auth) (g : GoSnmp) (snmp_context : Bytes)
    → check c ≡ none
    → ((c.version ≡ pos 1) × ((configure_snmp c g snmp_context).version ≡ version_1))
      ⊎ ((c.version ≡ pos 2) × ((configure_snmp c g snmp_context).version ≡ version_2c))
      ⊎ ((c.version ≡ pos 3) × ((configure_snmp c g snmp_context).version ≡ version_3))
unfolding configure_snmp
check-version c g snmp_context h = version_cases c.version g.version (checked_version c h)
