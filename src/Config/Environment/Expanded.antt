-- ===== src/Config/Environment/Expanded.antt =====
-- What `substituteEnvVariables` of config/config.go makes of a text.
use snmp_exporter.Common.{
  ℕ, suc, ◌+◌, ◌≡◌, refl, ap, ◌∙◌, false, [], ◌∷◌, ◌++◌, length, ◌==◌, if◌then◌else◌, Option, some,
  none, arith,
}
use snmp_exporter.Common.Text.{Bytes, Lacks}
use snmp_exporter.Config.Environment.{
  before_brace, name_in_braces, get_shell_name, Expansion, mapped, substitution, expand_from,
  is_last, Substituted, substituted, not_found, substitute_env_variables,
}

module _ (env : Bytes → Option Bytes) where
  -- A text without dollars is kept.
  expand_from-Lacks :
      (l s : Bytes)
      → Lacks b'$' l
      → expand_from env 0 (l ++ s)
        ≡ record (expand_from env 0 s) { result = l ++ (expand_from env 0 s).result }
  unfolding expand_from
  expand_from-Lacks [] s h = refl
  expand_from-Lacks (c ∷ l) s (p, h) =
      let q : (c == b'$') ≡ false = ground arith in
      rw (q, expand_from-Lacks l s h, expand_from) refl

  expand_from-plain :
      (s : Bytes) → Lacks b'$' s → expand_from env 0 s ≡ record { result = s; missing_env = [] }
  unfolding expand_from
  expand_from-plain [] h = refl
  expand_from-plain (c ∷ s) (p, h) =
      let q : (c == b'$') ≡ false = ground arith in rw (q, expand_from-plain s h, expand_from) refl

  -- The bytes of a name and of its closing brace are passed over.
  expand_from-name :
      (name s : Bytes)
      → expand_from env (suc (length name)) (name ++ b'}' ∷ s) ≡ expand_from env 0 s
  unfolding expand_from
  expand_from-name [] s = refl
  expand_from-name (c ∷ name) s = expand_from-name name s

  before_brace-Lacks :
      (name s : Bytes) → Lacks b'}' name → before_brace (name ++ b'}' ∷ s) ≡ some name
  unfolding before_brace
  before_brace-Lacks [] s h = ground arith
  before_brace-Lacks (c ∷ name) s (p, h) = rw (before_brace-Lacks name s h) (ground arith)

  three : (n : ℕ) → n + 3 ≡ suc (suc (suc n))
  three n = omega arith

  name_in_braces-Lacks :
      (c : ℕ) (name s : Bytes)
      → Lacks b'}' (c ∷ name)
      → name_in_braces (c ∷ name ++ b'}' ∷ s) ≡ (c ∷ name, length name + 3)
  unfolding name_in_braces
  name_in_braces-Lacks c name s h = rw (before_brace-Lacks (c ∷ name) s h, name_in_braces) refl

  -- A name in braces is replaced, and its value is not expanded again.
  expand_from-braces :
      (c : ℕ) (name s : Bytes)
      → Lacks b'}' (c ∷ name)
      → expand_from env 0 (b'$' ∷ b'{' ∷ (c ∷ name ++ b'}' ∷ s))
        ≡ mapped (c ∷ name) (env (c ∷ name)) (expand_from env 0 s)
  unfolding expand_from get_shell_name substitution
  expand_from-braces c name s h =
      rw (name_in_braces-Lacks c name s h, expand_from, get_shell_name)
        (ap (mapped (c ∷ name) (env (c ∷ name))) (
          ap (λ k. expand_from env k (b'{' ∷ (c ∷ name ++ b'}' ∷ s))) (three (length name))
          ∙ expand_from-name name s))

  -- What the substitution of one name gives.
  abbrev outcome : Bytes → Bytes → Bytes → Option Bytes → Substituted
  outcome name before after none = not_found name
  outcome name before after (some v) = substituted (before ++ (v ++ after))

  abbrev put_before : Bytes → Expansion → Expansion
  put_before l e = record e { result = l ++ e.result }

  finished : Expansion → Substituted
  finished e = if is_last e.missing_env then substituted e.result else not_found e.missing_env

  finished-mapped :
      (before after : Bytes) (c : ℕ) (name : Bytes) (o : Option Bytes)
      → finished (record (mapped (c ∷ name) o (record { result = after; missing_env = [] })) {
        result =
            before ++ (mapped (c ∷ name) o (record { result = after; missing_env = [] })).result;
      })
        ≡ outcome (c ∷ name) before after o
  unfolding finished
  finished-mapped before after c name none = refl
  finished-mapped before after c name (some v) = refl

  -- Of a text with one name in braces, the name is replaced by its value, which is not expanded again,
  -- and the rest is kept; without a value the name is the error.
  pub substitute_env_variables-braces :
      (before after : Bytes) (c : ℕ) (name : Bytes)
      → Lacks b'$' before
      → Lacks b'$' after
      → Lacks b'}' (c ∷ name)
      → substitute_env_variables env (before ++ (b'$' ∷ b'{' ∷ (c ∷ name ++ b'}' ∷ after)))
        ≡ outcome (c ∷ name) before after (env (c ∷ name))
  unfolding substitute_env_variables finished
  substitute_env_variables-braces before after c name h k l =
      ap finished (
        expand_from-Lacks before (b'$' ∷ b'{' ∷ (c ∷ name ++ b'}' ∷ after)) h
        ∙ ap (put_before before) (
            expand_from-braces c name after l
            ∙ ap (mapped (c ∷ name) (env (c ∷ name))) (expand_from-plain after k)))
      ∙ finished-mapped before after c name (env (c ∷ name))
