-- ===== src/Generator/Generate/Written.antt =====
-- How `generateConfig` of generator/main.go ends, and what it has written to the file.
use snmp_exporter.Common.{
  ◌≡◌, refl, sym, ap, ◌∙◌, ◌↔◌, Bool, true, false, List, [], ◌++◌, Option, some, none, Option-cases,
  Bool-cases, inl, inr,
}
use mathlib.Core.Path.{subst}
use snmp_exporter.Common.Text.{Bytes}
use snmp_exporter.Generator.Store.{Tree}
use snmp_exporter.Generator.Result.{Result, ConfigError, ok, failed, panic}
use snmp_exporter.Generator.Netsnmp.{Heap}
use snmp_exporter.Generator.Generate.{
  ModuleOutput, GeneratorConfig, Environment, Ending, GenerateRun, written, error, panics,
  no_absolute_path, unreadable, bad_yaml, bad_module, bad_marshal, bad_output, not_created,
  not_written, warning, write_output, finish_config, with_config, with_content,
  generate_config_file, generate_modules,
}

-- A run that ends, with the flag to show the secrets as it was or taken back.
abbrev pub ended : Ending → Bool → GenerateRun
ended outcome hide = record { outcome = outcome; do_not_hide_secrets = hide }

module _ {A F64 I : Type 0} (environment : Environment A F64 I) (zero : F64) (nodes : Tree)
    (h : Heap) (yml_path output_path : Bytes) (hide : Bool) where
  -- The configuration in the input file, and the path of the output.
  pub record Loads (path : Bytes) (cfg : GeneratorConfig A F64 I) : Type 0 where
    pub content : Bytes
    pub is_path : environment.abs output_path ≡ some path
    pub is_read : environment.read_file yml_path ≡ some content
    pub is_config : environment.unmarshal_strict content ≡ some cfg

  -- What `Marshal` makes, with the secrets shown, of the modules that the configuration names, each from
  -- a copy of the tree.
  pub record Makes (path out : Bytes) : Type 0 where
    pub cfg : GeneratorConfig A F64 I
    pub modules : List (Bytes × ModuleOutput F64 I)
    pub loads : Loads path cfg
    pub generated : generate_modules zero nodes cfg.modules h [] ≡ ok modules
    pub marshalled :
        environment.marshal true (record { auths = cfg.auths; modules = modules }) ≡ some out

  -- All the ways to end.
  pub data Ended : GenerateRun → Type 0 where
    without_path : environment.abs output_path ≡ none → Ended (ended (error no_absolute_path) hide)
    without_content :
        (path : Bytes)
        → environment.abs output_path ≡ some path
        → environment.read_file yml_path ≡ none
        → Ended (ended (error unreadable) hide)
    without_config :
        (path content : Bytes)
        → environment.abs output_path ≡ some path
        → environment.read_file yml_path ≡ some content
        → environment.unmarshal_strict content ≡ none
        → Ended (ended (error bad_yaml) hide)
    without_modules :
        {path : Bytes} {cfg : GeneratorConfig A F64 I} (e : ConfigError)
        → Loads path cfg
        → generate_modules zero nodes cfg.modules h [] ≡ failed e
        → Ended (ended (error (bad_module e)) hide)
    in_panic :
        {path : Bytes} {cfg : GeneratorConfig A F64 I}
        → Loads path cfg
        → generate_modules zero nodes cfg.modules h [] ≡ panic
        → Ended (ended panics hide)
    without_text :
        {path : Bytes} {cfg : GeneratorConfig A F64 I} (modules : List (Bytes × ModuleOutput F64 I))
        → Loads path cfg
        → generate_modules zero nodes cfg.modules h [] ≡ ok modules
        → environment.marshal true (record { auths = cfg.auths; modules = modules }) ≡ none
        → Ended (ended (error bad_marshal) false)
    not_accepted :
        {path out : Bytes}
        → Makes path out
        → environment.accepts out ≡ false
        → Ended (ended (error bad_output) false)
    without_file :
        {path out : Bytes}
        → Makes path out
        → environment.accepts out ≡ true
        → environment.can_create path ≡ false
        → Ended (ended (error not_created) false)
    in_writing :
        {path out : Bytes}
        → Makes path out
        → environment.accepts out ≡ true
        → environment.can_create path ≡ true
        → environment.can_write path ≡ false
        → Ended (ended (error not_written) false)
    in_file :
        {path out : Bytes}
        → Makes path out
        → environment.accepts out ≡ true
        → environment.can_create path ≡ true
        → environment.can_write path ≡ true
        → Ended (ended (written path (warning ++ out)) false)

  abbrev result : GenerateRun
  result = generate_config_file environment zero nodes h yml_path output_path hide

  with_path :
      (path : Bytes)
      → environment.abs output_path ≡ some path
      → result ≡ with_content environment zero nodes h path hide (environment.read_file yml_path)
  unfolding generate_config_file
  with_path path p = rw (p, generate_config_file) refl

  result-Loads :
      (path : Bytes) (cfg : GeneratorConfig A F64 I)
      → Loads path cfg
      → result
        ≡ finish_config environment path cfg.auths hide
            (generate_modules zero nodes cfg.modules h [])
  unfolding with_content with_config
  result-Loads path cfg l =
      with_path path l.is_path
      ∙ (ap (with_content environment zero nodes h path hide) l.is_read
          ∙ ap (with_config environment zero nodes h path hide) l.is_config)

  result-Makes :
      (path out : Bytes) → Makes path out → result ≡ ended (write_output environment path out) false
  unfolding finish_config
  result-Makes path out m =
      result-Loads path m.cfg m.loads
      ∙ (ap (finish_config environment path m.cfg.auths hide) m.generated ∙ rw m.marshalled refl)

  write_output-Ended :
      (path out : Bytes) → Makes path out → Ended (ended (write_output environment path out) false)
  unfolding write_output
  write_output-Ended path out m = elim (Bool-cases (environment.accepts out)) [
    | inr p ↦ rw p (not_accepted m p)
    | inl p ↦ elim (Bool-cases (environment.can_create path)) [
      | inr q ↦ rw (p, q) (without_file m p q)
      | inl q ↦ elim (Bool-cases (environment.can_write path)) [
        | inr r ↦ rw (p, q, r) (in_writing m p q r)
        | inl r ↦ rw (p, q, r) (in_file m p q r)
      ]
    ]
  ]

  finish_config-Ended :
      (path : Bytes) (cfg : GeneratorConfig A F64 I)
      (made : Result (List (Bytes × ModuleOutput F64 I)))
      → Loads path cfg
      → generate_modules zero nodes cfg.modules h [] ≡ made
      → Ended (finish_config environment path cfg.auths hide made)
  unfolding finish_config
  finish_config-Ended path cfg (failed e) l g = without_modules e l g
  finish_config-Ended path cfg panic l g = in_panic l g
  finish_config-Ended path cfg (ok modules) l g =
      elim (Option-cases
        (environment.marshal true (record { auths = cfg.auths; modules = modules }))) [
          | inl m ↦ rw m (without_text modules l g m)
          | inr (out, m) ↦ rw m (
              write_output-Ended path out
                (record { cfg = cfg; modules = modules; loads = l; generated = g; marshalled = m }))
        ]

  with_config-Ended :
      (path content : Bytes) (decoded : Option (GeneratorConfig A F64 I))
      → environment.abs output_path ≡ some path
      → environment.read_file yml_path ≡ some content
      → environment.unmarshal_strict content ≡ decoded
      → Ended (with_config environment zero nodes h path hide decoded)
  unfolding with_config
  with_config-Ended path content none p r c = without_config path content p r c
  with_config-Ended path content (some cfg) p r c =
      finish_config-Ended path cfg _
        (record { content = content; is_path = p; is_read = r; is_config = c }) refl

  with_content-Ended :
      (path : Bytes) (read : Option Bytes)
      → environment.abs output_path ≡ some path
      → environment.read_file yml_path ≡ read
      → Ended (with_content environment zero nodes h path hide read)
  unfolding with_content
  with_content-Ended path none p r = without_content path p r
  with_content-Ended path (some content) p r = with_config-Ended path content _ p r refl

  result-Ended : Ended result
  unfolding generate_config_file
  result-Ended = elim (Option-cases (environment.abs output_path)) [
    | inl p ↦ rw (p, generate_config_file) (without_path p)
    | inr (path, p) ↦ subst Ended (sym (with_path path p)) (with_content-Ended path _ p refl)
  ]

  Ended-result : (r : GenerateRun) → Ended r → result ≡ r
  unfolding with_content with_config finish_config write_output
  Ended-result _ (without_path p) = unfold generate_config_file in rw (p, generate_config_file) refl
  Ended-result _ (without_content path p r) =
      with_path path p ∙ ap (with_content environment zero nodes h path hide) r
  Ended-result _ (without_config path content p r c) =
      with_path path p
      ∙ (ap (with_content environment zero nodes h path hide) r
          ∙ ap (with_config environment zero nodes h path hide) c)
  Ended-result _ (without_modules {path} {cfg} e l g) =
      result-Loads path cfg l ∙ ap (finish_config environment path cfg.auths hide) g
  Ended-result _ (in_panic {path} {cfg} l g) =
      result-Loads path cfg l ∙ ap (finish_config environment path cfg.auths hide) g
  Ended-result _ (without_text {path} {cfg} modules l g m) =
      result-Loads path cfg l ∙ (ap (finish_config environment path cfg.auths hide) g ∙ rw m refl)
  Ended-result _ (not_accepted {path} {out} m p) = result-Makes path out m ∙ rw p refl
  Ended-result _ (without_file {path} {out} m p q) = result-Makes path out m ∙ rw (p, q) refl
  Ended-result _ (in_writing {path} {out} m p q r) = result-Makes path out m ∙ rw (p, q, r) refl
  Ended-result _ (in_file {path} {out} m p q r) = result-Makes path out m ∙ rw (p, q, r) refl

  pub generate_config_file-Ended :
      (r : GenerateRun)
      → Ended r ↔ (generate_config_file environment zero nodes h yml_path output_path hide ≡ r)
  generate_config_file-Ended r = (Ended-result r, λ e. subst Ended e result-Ended)
