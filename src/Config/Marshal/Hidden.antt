-- ===== src/Config/Marshal/Hidden.antt =====
-- What the configuration of config/config.go shows of its secrets when it is written.
use snmp_exporter.Common.{◌≡◌, refl, false, List, [], ◌∷◌}
use snmp_exporter.Common.Text.{Bytes}
use snmp_exporter.Config.Auth.{Auth}
use snmp_exporter.Config.Marshal.{marshal_secret, omit_empty, auth_fields, auths_fields}

-- Both are empty, or none of them.
abbrev pub BothSet : Bytes → Bytes → Type 0
BothSet [] [] = Unit
BothSet [] (d ∷ t) = ⊥
BothSet (c ∷ s) [] = ⊥
BothSet (c ∷ s) (d ∷ t) = Unit

-- The settings agree but for the contents of their secrets.
pub record Alike (a b : Auth) : Type 0 where
  pub community : BothSet a.community b.community
  pub password : BothSet a.password b.password
  pub priv_password : BothSet a.priv_password b.priv_password
  pub security_level : a.security_level ≡ b.security_level
  pub username : a.username ≡ b.username
  pub auth_protocol : a.auth_protocol ≡ b.auth_protocol
  pub priv_protocol : a.priv_protocol ≡ b.priv_protocol
  pub context_name : a.context_name ≡ b.context_name
  pub version : a.version ≡ b.version

abbrev pub AllAlike : List (Bytes × Auth) → List (Bytes × Auth) → Type 0
AllAlike [] [] = Unit
AllAlike [] (e ∷ m) = ⊥
AllAlike (e ∷ l) [] = ⊥
AllAlike ((name, a) ∷ l) ((other, b) ∷ m) = (name ≡ other) × (Alike a b × AllAlike l m)

marshal_secret-BothSet :
    (s t : Bytes)
    → BothSet s t
    → omit_empty (marshal_secret false) s ≡ omit_empty (marshal_secret false) t
unfolding marshal_secret
marshal_secret-BothSet [] [] h = refl
marshal_secret-BothSet [] (d ∷ t) h = absurd h
marshal_secret-BothSet (c ∷ s) [] h = absurd h
marshal_secret-BothSet (c ∷ s) (d ∷ t) h = refl

auth_fields-Alike : (a b : Auth) → Alike a b → auth_fields false a ≡ auth_fields false b
unfolding auth_fields
auth_fields-Alike a b h =
    let p = marshal_secret-BothSet a.community b.community h.community in
    let q = marshal_secret-BothSet a.password b.password h.password in
    let r = marshal_secret-BothSet a.priv_password b.priv_password h.priv_password in
    let level = h.security_level in
    let user = h.username in
    let auth = h.auth_protocol in
    let priv = h.priv_protocol in let context = h.context_name in let version = h.version in cc

-- Written without `DoNotHideSecrets`, settings that differ in nothing but what their secrets are look
-- the same, so that what is written says no more of a secret than whether it is empty.
pub auths_fields-AllAlike :
    (l m : List (Bytes × Auth)) → AllAlike l m → auths_fields false l ≡ auths_fields false m
unfolding auths_fields
auths_fields-AllAlike [] [] h = refl
auths_fields-AllAlike [] (e ∷ m) h = absurd h
auths_fields-AllAlike (e ∷ l) [] h = absurd h
auths_fields-AllAlike ((name, a) ∷ l) ((other, b) ∷ m) (e, (p, h)) =
    let q = auth_fields-Alike a b p in let r = auths_fields-AllAlike l m h in cc
