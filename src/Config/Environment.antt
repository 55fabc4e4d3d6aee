-- ===== src/Config/Environment.antt =====
-- `substituteEnvVariables` and `LoadFile` of config/config.go, with `os.Expand`. The file system and
-- the YAML decoder are parameters.
pub mod Expanded
use snmp_exporter.Common.{
  ℕ, zero, suc, ◌+◌, ◌≡◌, Bool, true, false, not, ◌&&◌, ◌||◌, List, [], ◌∷◌, ◌++◌, length, leb,
  ◌==◌, if◌then◌else◌, Option, some, none, any,
}
use snmp_exporter.Common.Text.{Bytes, equal, text}
use snmp_exporter.Config.Auth.{Auth}

unfoldable pub is_alpha_num : ℕ → Bool
is_alpha_num c =
    c == b'_'
    || (leb b'0' c && leb c b'9')
    || (leb b'a' c && leb c b'z')
    || (leb b'A' c && leb c b'Z')

-- `*#$@!?-` and the digits.
unfoldable pub is_shell_special_var : ℕ → Bool
unfolding text
is_shell_special_var c = (leb b'0' c && leb c b'9') || any (λ d. c == d) (text "*#$@!?-")

-- The text before the first `}`.
unfoldable pub before_brace : Bytes → Option Bytes
before_brace [] = none
before_brace (c ∷ s) =
    let rest = before_brace s in
    if c == b'}' then some [] else (elim rest [ some name ↦ some (c ∷ name) | none ↦ none ])

-- A name in braces, from behind the opening one; one byte before the closing brace is a name like any
-- other, so that the case of a special variable is no different.
unfoldable pub name_in_braces : Bytes → Bytes × ℕ
unfolding before_brace
name_in_braces s = elim (before_brace s) [
  | none ↦ ([], 1)
  | some [] ↦ ([], 2)
  | some (c ∷ name) ↦ (c ∷ name, length name + 3)
]

unfoldable pub alpha_num_prefix : Bytes → Bytes
unfolding is_alpha_num
alpha_num_prefix [] = []
alpha_num_prefix (c ∷ s) = let rest = alpha_num_prefix s in if is_alpha_num c then c ∷ rest else []

-- `getShellName`: the name and the bytes that it takes up.
unfoldable pub get_shell_name : Bytes → Bytes × ℕ
unfolding name_in_braces alpha_num_prefix is_shell_special_var
get_shell_name [] = ([], 0)
get_shell_name (c ∷ s) =
    if c == b'{'
    then name_in_braces s
    else if is_shell_special_var c
    then (c ∷ [], 1)
    else (alpha_num_prefix (c ∷ s), length (alpha_num_prefix (c ∷ s)))

-- A text and the first name that was missing, which is empty if none was.
pub record Expansion : Type 0 where
  pub result : Bytes
  pub missing_env : Bytes

-- The lookup of a name before an expansion.
abbrev pub mapped : Bytes → Option Bytes → Expansion → Expansion
mapped name none e = record { result = e.result; missing_env = name }
mapped name (some v) e = record e { result = v ++ e.result }

-- What stands for a name of a width; a name is empty after bad syntax and after a lone dollar.
unfoldable pub substitution : (Bytes → Option Bytes) → Bytes × ℕ → Expansion → Expansion
substitution env ([], zero) e = record e { result = b'$' ∷ e.result }
substitution env ([], suc w) e = e
substitution env (c ∷ name, w) e = mapped (c ∷ name) (env (c ∷ name)) e

abbrev pub is_last : Bytes → Bool
is_last [] = true
is_last (c ∷ s) = false

-- `os.Expand` with the lookup of `substituteEnvVariables`: `skip` counts the bytes left of a name.
unfoldable pub expand_from : (Bytes → Option Bytes) → ℕ → Bytes → Expansion
unfolding get_shell_name substitution
expand_from env skip [] = record { result = []; missing_env = [] }
expand_from env (suc skip) (c ∷ s) = expand_from env skip s
expand_from env zero (c ∷ s) =
    let after = expand_from env (get_shell_name s).1 s in
    let plain = expand_from env zero s in
    if c == b'$' && not (is_last s)
    then substitution env (get_shell_name s) after
    else record plain { result = c ∷ plain.result }

pub data Substituted : Type 0 where
  substituted : Bytes → Substituted
  not_found : Bytes → Substituted

unfoldable pub substitute_env_variables : (Bytes → Option Bytes) → Bytes → Substituted
unfolding expand_from
substitute_env_variables env value =
    let e = expand_from env 0 value in
    if is_last e.missing_env then substituted e.result else not_found e.missing_env

-- The errors of `LoadFile`.
pub data LoadError : Type 0 where
  bad_pattern unreadable bad_yaml env_not_found : Bytes → LoadError

pub data FileLoad {ℓ} (A : Type ℓ) : Type ℓ where
  loaded : A → FileLoad A
  load_failed : LoadError → FileLoad A

infixl 5 ◌>>=◌
abbrev pub ◌>>=◌ {ℓ κ} : {A : Type ℓ} {B : Type κ} → FileLoad A → (A → FileLoad B) → FileLoad B
loaded a >>= f = f a
load_failed e >>= f = load_failed e

module _ (env : Bytes → Option Bytes) where
  abbrev pub or_failed : Substituted → FileLoad Bytes
  or_failed (substituted s) = loaded s
  or_failed (not_found name) = load_failed (env_not_found name)

  -- A field that is set.
  unfoldable pub expand_field : Bytes → FileLoad Bytes
  expand_field [] = loaded []
  expand_field (c ∷ s) = or_failed (substitute_env_variables env (c ∷ s))

  unfoldable pub expand_auth : Auth → FileLoad Auth
  unfolding expand_field
  expand_auth auth = do
    username ← expand_field auth.username
    password ← expand_field auth.password
    priv_password ← expand_field auth.priv_password
    loaded (record auth { username = username; password = password; priv_password = priv_password })

  unfoldable pub expand_auths : List (Bytes × Auth) → FileLoad (List (Bytes × Auth))
  unfolding expand_auth
  expand_auths [] = loaded []
  expand_auths ((name, auth) ∷ auths) = do
    expanded ← expand_auth auth
    rest ← expand_auths auths
    loaded ((name, expanded) ∷ rest)

-- `Config`; the modules and the version are whatever the decoder makes of them.
pub record LoadedConfig (M : Type 0) : Type 0 where
  pub auths : List (Bytes × Auth)
  pub rest : M

-- `filepath.Glob`, `os.ReadFile` and `yaml.UnmarshalStrict` onto a configuration.
pub record Files (M : Type 0) : Type 0 where
  pub glob : Bytes → Option (List Bytes)
  pub read_file : Bytes → Option Bytes
  pub unmarshal_strict : Bytes → LoadedConfig M → Option (LoadedConfig M)

module _ {M : Type 0} (files : Files M) where
  unfoldable pub load_content : Bytes → LoadedConfig M → Option Bytes → FileLoad (LoadedConfig M)
  load_content file cfg none = load_failed (unreadable file)
  load_content file cfg (some content) = elim (files.unmarshal_strict content cfg) [
    | some next ↦ loaded next
    | none ↦ load_failed (bad_yaml file)
  ]

  unfoldable pub load_each : List Bytes → LoadedConfig M → FileLoad (LoadedConfig M)
  unfolding load_content
  load_each [] cfg = loaded cfg
  load_each (file ∷ rest) cfg = do
    next ← load_content file cfg (files.read_file file)
    load_each rest next

  unfoldable pub load_paths : List Bytes → LoadedConfig M → FileLoad (LoadedConfig M)
  unfolding load_each
  load_paths [] cfg = loaded cfg
  load_paths (path ∷ paths) cfg =
      let later = load_paths paths in
      elim (files.glob path) [
        | none ↦ load_failed (bad_pattern path)
        | some found ↦ do next ← load_each found cfg; later next
      ]

  -- `LoadFile`, from the empty configuration.
  unfoldable pub load_file :
      (Bytes → Option Bytes) → LoadedConfig M → List Bytes → Bool → FileLoad (LoadedConfig M)
  unfolding load_paths expand_auths
  load_file env empty paths false = load_paths paths empty
  load_file env empty paths true = do
    cfg ← load_paths paths empty
    auths ← expand_auths env cfg.auths
    loaded (record cfg { auths = auths })
