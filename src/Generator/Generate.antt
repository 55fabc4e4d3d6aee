-- ===== src/Generator/Generate.antt =====
-- `generateConfig` of generator/main.go: each module is generated from a copy of the prepared tree of
-- its own, and the whole is written to a file. Log lines are left out; the YAML library and the file
-- system are arguments.
pub mod Isolated
pub mod Written
use snmp_exporter.Common.{
  ℕ, ◌≡◌, Bool, true, false, List, [], ◌∷◌, ◌++◌, if◌then◌else◌, Option, some, none,
}
use snmp_exporter.Common.Text.{Bytes, text}
use snmp_exporter.Common.Map.{insert}
use snmp_exporter.Config.WalkParams.{WalkParams}
use snmp_exporter.Generator.Store.{Tree, Store, walk_node}
use snmp_exporter.Generator.ModuleConfig.{ModuleConfig}
use snmp_exporter.Generator.Walks.{override_types}
use snmp_exporter.Generator.Module.{Generated, add_module_names, generate_config}
use snmp_exporter.Generator.Result.{Result, ok, failed, panic, ConfigError, ◌>>=◌}
use snmp_exporter.Generator.Netsnmp.{Heap, copy}

-- `ModuleConfig` with its `WalkParams`, of which the pointer is its target.
pub record ModuleInput (F64 I : Type 0) : Type 0 where
  pub config : ModuleConfig F64
  pub walk_params : WalkParams I

pub record ModuleOutput (F64 I : Type 0) : Type 0 where
  pub generated : Generated F64
  pub walk_params : WalkParams I

-- `Config` of generator/config.go, and `config.Config` for the output.
pub record GeneratorConfig (A F64 I : Type 0) : Type 0 where
  pub auths : List (Bytes × A)
  pub modules : List (Bytes × ModuleInput F64 I)

pub record OutputConfig (A F64 I : Type 0) : Type 0 where
  pub auths : List (Bytes × A)
  pub modules : List (Bytes × ModuleOutput F64 I)

module _ {F64 : Type 0} (nodes : Tree) where
  -- The nodes after a module: those of the copy have the types of the overrides.
  unfoldable pub after_module : ModuleConfig F64 → Heap → Heap
  unfolding override_types walk_node add_module_names copy
  after_module cfg h =
      let copied = copy nodes h in
      let names = walk_node (add_module_names copied.1.store) copied.0 [] in
      record copied.1 { store = override_types names cfg.overrides copied.1.store }

  -- A module from its copy of the nodes.
  unfoldable pub generate_module : F64 → ModuleConfig F64 → Heap → Result (Generated F64)
  unfolding generate_config copy
  generate_module zero cfg h = generate_config zero cfg (copy nodes h).0 (copy nodes h).1.store

module _ {F64 I : Type 0} (zero : F64) (nodes : Tree) where
  -- The loop over `cfg.Modules`.
  unfoldable pub generate_modules :
      List (Bytes × ModuleInput F64 I)
      → Heap
      → List (Bytes × ModuleOutput F64 I)
      → Result (List (Bytes × ModuleOutput F64 I))
  unfolding generate_module after_module
  generate_modules [] h out = ok out
  generate_modules ((name, m) ∷ modules) h out = do
    generated ← generate_module nodes zero m.config h
    generate_modules modules (after_module nodes m.config h)
        (insert name (record { generated = generated; walk_params = m.walk_params }) out)

-- The file system and the YAML library. What `marshal` makes of the secrets depends on
-- `config.DoNotHideSecrets`, which it gets; `accepts` tells whether `UnmarshalStrict` onto a
-- `config.Config` gives no error; `write` whether `Create`, and `Write`, of a path work.
pub record Environment (A F64 I : Type 0) : Type 0 where
  pub abs : Bytes → Option Bytes
  pub read_file : Bytes → Option Bytes
  pub unmarshal_strict : Bytes → Option (GeneratorConfig A F64 I)
  pub marshal : Bool → OutputConfig A F64 I → Option Bytes
  pub accepts : Bytes → Bool
  pub can_create : Bytes → Bool
  pub can_write : Bytes → Bool

pub data GenerateError : Type 0 where
  no_absolute_path unreadable bad_yaml bad_marshal bad_output not_created not_written :
      GenerateError
  bad_module : ConfigError → GenerateError

-- How `generateConfig` ends: with a text in a file, an error, or a panic.
pub data Ending : Type 0 where
  written : Bytes → Bytes → Ending
  error : GenerateError → Ending
  panics : Ending

-- With `config.DoNotHideSecrets`.
pub record GenerateRun : Type 0 where
  pub outcome : Ending
  pub do_not_hide_secrets : Bool

abbrev pub warning : Bytes
warning =
    text
      "# WARNING: This file was auto-generated using snmp_exporter generator, manual changes will be lost.\n"

module _ {A F64 I : Type 0} (environment : Environment A F64 I) where
  unfoldable pub write_output : Bytes → Bytes → Ending
  write_output path out =
      if environment.accepts out
      then if environment.can_create path
        then if environment.can_write path then written path (warning ++ out) else error not_written
        else error not_created
      else error bad_output

  -- From the modules on.
  unfoldable pub finish_config :
      Bytes → List (Bytes × A) → Bool → Result (List (Bytes × ModuleOutput F64 I)) → GenerateRun
  unfolding write_output
  finish_config path auths hide (failed e) = record {
    outcome = error (bad_module e);
    do_not_hide_secrets = hide;
  }
  finish_config path auths hide panic = record { outcome = panics; do_not_hide_secrets = hide }
  finish_config path auths hide (ok modules) = record {
    outcome = elim (environment.marshal true (record { auths = auths; modules = modules })) [
      | none ↦ error bad_marshal
      | some out ↦ write_output path out
    ];
    do_not_hide_secrets = false;
  }

  unfoldable pub with_config :
      F64 → Tree → Heap → Bytes → Bool → Option (GeneratorConfig A F64 I) → GenerateRun
  unfolding finish_config generate_modules
  with_config zero nodes h path hide none = record {
    outcome = error bad_yaml;
    do_not_hide_secrets = hide;
  }
  with_config zero nodes h path hide (some cfg) =
      finish_config path cfg.auths hide (generate_modules zero nodes cfg.modules h [])

  unfoldable pub with_content : F64 → Tree → Heap → Bytes → Bool → Option Bytes → GenerateRun
  unfolding with_config
  with_content zero nodes h path hide none = record {
    outcome = error unreadable;
    do_not_hide_secrets = hide;
  }
  with_content zero nodes h path hide (some content) =
      with_config zero nodes h path hide (environment.unmarshal_strict content)

  -- `generateConfig`, from the paths of the flags.
  unfoldable pub generate_config_file : F64 → Tree → Heap → Bytes → Bytes → Bool → GenerateRun
  unfolding with_content
  generate_config_file zero nodes h yml_path output_path hide = elim (environment.abs output_path) [
    | none ↦ record { outcome = error no_absolute_path; do_not_hide_secrets = hide }
    | some path ↦ with_content zero nodes h path hide (environment.read_file yml_path)
  ]
