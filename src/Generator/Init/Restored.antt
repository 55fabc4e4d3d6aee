-- ===== src/Generator/Init/Restored.antt =====
-- What `initSNMP` of generator/net_snmp.go leaves of the file descriptors.
use snmp_exporter.Common.{ℕ, ◌==◌, if◌then◌else◌, ◌≡◌, refl, ◌≢◌, arith, Option, some, none, if_ind}
use snmp_exporter.Common.Text.{Bytes}
use snmp_exporter.Generator.Init.{Descriptors, set_fd, Kernel, tables, init_snmp}

-- The descriptors that the calls give are not in use, and the pipe is new.
pub record IsNew (k : Kernel) (t : Descriptors) : Type 0 where
  pub pipe_r : t k.pipe_r ≡ none
  pub pipe_w : t k.pipe_w ≡ none
  pub pipe_apart : k.pipe_r ≢ k.pipe_w
  pub saved : t k.saved ≡ none
  pub saved_r : k.saved ≢ k.pipe_r
  pub saved_w : k.saved ≢ k.pipe_w
  pub ends_apart : k.read_end ≢ k.write_end
  pub write_end : (fd : ℕ) → t fd ≢ some k.write_end

module _ (k : Kernel) (t : Descriptors) (n : IsNew k t) (stderr : ℕ) (o : t 2 ≡ some stderr) where
  tables-final : (fd : ℕ) → (tables k t).final fd ≡ t fd
  unfolding tables set_fd
  tables-final fd = ground (arith, n.pipe_r, n.pipe_w, n.pipe_apart, n.saved, n.saved_r, n.saved_w)

  tables-restored :
      (fd : ℕ) → (tables k t).restored fd ≡ (if fd == k.pipe_r then some k.read_end else t fd)
  unfolding tables set_fd
  tables-restored fd =
      ground (arith, n.pipe_r, n.pipe_w, n.pipe_apart, n.saved, n.saved_r, n.saved_w)

  -- Where stderr is open and the calls give descriptors that are not in use, initSNMP leaves every
  -- descriptor as it was; and while it waits for what was written, no descriptor has the end of the pipe
  -- for writing.
  pub init_snmp_restores :
      ((fd : ℕ) → (init_snmp k t).1 fd ≡ t fd)
      × ((fd : ℕ) → (tables k t).restored fd ≢ some k.write_end)
  unfolding init_snmp
  init_snmp_restores = (
    λ fd.
        if_ind (λ (r : Option Bytes × Descriptors). r.1 fd ≡ t fd) k.setenv_works
          (if_ind (λ (r : Option Bytes × Descriptors). r.1 fd ≡ t fd) k.pipe_works (tables-final fd)
            refl)
          refl,
    λ fd e. ground (arith, tables-restored fd, n.write_end fd, n.ends_apart),
  )
