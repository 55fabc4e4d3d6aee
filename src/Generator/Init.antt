-- ===== src/Generator/Init.antt =====
-- `initSNMP` of generator/net_snmp.go: what it does with the file descriptors, to read what NetSNMP
-- writes to stderr while it loads the MIBs. The table of descriptors is explicit; what the
-- calls give back is an argument.
pub mod Restored
use snmp_exporter.Common.{ℕ, ◌==◌, if◌then◌else◌, Bool, true, false, Option, some, none}
use snmp_exporter.Common.Text.{Bytes}

-- The open file of each descriptor, by a number.
abbrev pub Descriptors : Type 0
Descriptors = ℕ → Option ℕ

unfoldable pub set_fd : ℕ → Option ℕ → Descriptors → Descriptors
set_fd fd file t d = if d == fd then file else t d

abbrev pub close : ℕ → Descriptors → Descriptors
close fd t = set_fd fd none t

abbrev pub dup2 : ℕ → ℕ → Descriptors → Descriptors
dup2 old new t = set_fd new (t old) t

-- The descriptors that `Pipe` and `dup` give; the files of the pipe; whether `Setenv` and `Pipe` work;
-- and what `ReadAll` gives, where `none` is its error.
pub record Kernel : Type 0 where
  pub pipe_r : ℕ
  pub pipe_w : ℕ
  pub saved : ℕ
  pub read_end : ℕ
  pub write_end : ℕ
  pub setenv_works : Bool
  pub pipe_works : Bool
  pub read_all : Option Bytes

-- The table after the pipe was made, while the MIBs are loaded, when stderr is restored and the data
-- are read, and at the end; `w.Close()` at the end has no effect a second time.
pub record Tables : Type 0 where
  pub piped : Descriptors
  pub redirected : Descriptors
  pub restored : Descriptors
  pub final : Descriptors

module _ (k : Kernel) (t : Descriptors) where
  unfoldable pub tables : Tables
  unfolding set_fd
  tables =
      let piped = set_fd k.pipe_w (some k.write_end) (set_fd k.pipe_r (some k.read_end) t) in
      let redirected = dup2 k.pipe_w 2 (close 2 (set_fd k.saved (piped 2) piped)) in
      let restored = close k.saved (dup2 k.saved 2 (close 2 (close k.pipe_w redirected))) in
      record {
        piped = piped;
        redirected = redirected;
        restored = restored;
        final = close k.pipe_r restored;
      }

  -- `initSNMP`: the output, where `none` is an error, and the table it leaves.
  unfoldable pub init_snmp : Option Bytes × Descriptors
  unfolding tables
  init_snmp =
      if k.setenv_works
      then if k.pipe_works then (k.read_all, tables.final) else (none, t)
      else (none, t)
