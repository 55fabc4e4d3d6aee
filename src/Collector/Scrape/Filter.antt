-- ===== src/Collector/Scrape/Filter.antt =====
-- What the filters leave of the configured OIDs.
use snmp_exporter.Common.{
  ◌≡◌, refl, Bool, true, not, ◌&&◌, ◌||◌, List, [], ◌∷◌, ◌++◌, arith, if◌then◌else◌, keep, all,
}
use snmp_exporter.Common.Text.{Bytes, equal, equal_iff}
use snmp_exporter.Collector.Scrape.{
  DynamicFilter, intersect_indices, update_walk_config, Allowed, allow, allow_targets,
}
use snmp_exporter.Common.Text.{contains}

-- A filtered list holds what the list holds and passes the test.
pub contains-keep :
    (p : Bytes → Bool) (l : List Bytes) (x : Bytes) → contains (keep p l) x ≡ (p x && contains l x)
contains-keep p [] x = ground arith
contains-keep p (y ∷ l) x = ground (arith, equal_iff x y, contains-keep p l x)

pub contains-append :
    (a b : List Bytes) (x : Bytes) → contains (a ++ b) x ≡ (contains a x || contains b x)
contains-append [] b x = refl
contains-append (y ∷ a) b x = ground (arith, contains-append a b x)

-- The intersection holds exactly the indices that both lists hold.
pub contains-intersect_indices :
    (a b : List Bytes) (x : Bytes)
    → contains (intersect_indices a b) x ≡ (contains b x && contains a x)
unfolding intersect_indices
contains-intersect_indices a b x = contains-keep (contains b) a x

-- What the combined filters allow of a target: everything, where no filter has the target.
pub admits : Allowed → Bytes → Bytes → Bool
admits [] target index = true
admits ((t, l) ∷ m) target index =
    if equal t target then contains l index else admits m target index

admits-allow :
    (target : Bytes) (l : List Bytes) (m : Allowed) (t x : Bytes)
    → admits (allow target l m) t x ≡ (admits m t x && (not (equal t target) || contains l x))
unfolding admits allow
admits-allow target l [] t x = ground (arith, equal_iff target t, equal_iff t target)
admits-allow target l ((u, e) ∷ m) t x = ground (
  arith,
  equal_iff target t,
  equal_iff t target,
  equal_iff u target,
  equal_iff u t,
  contains-intersect_indices e l x,
  admits-allow target l m t x,
)

pub admits-allow_targets :
    (targets : List Bytes) (l : List Bytes) (m : Allowed) (t x : Bytes)
    → admits (allow_targets targets l m) t x
      ≡ (admits m t x && (not (contains targets t) || contains l x))
unfolding allow_targets
admits-allow_targets [] l m t x = ground arith
admits-allow_targets (u ∷ targets) l m t x =
    ground (arith, admits-allow_targets targets l (allow u l m) t x, admits-allow u l m t x)

-- The filters that were evaluated, each as its targets and the indices that it allows.
pub allow_all : List (List Bytes × List Bytes) → Allowed → Allowed
allow_all [] m = m
allow_all (f ∷ fs) m = allow_all fs (allow_targets f.0 f.1 m)

-- One filter's word on an index of a target.
abbrev pub filter_admits : Bytes → Bytes → List Bytes × List Bytes → Bool
filter_admits t x f = not (contains f.0 t) || contains f.1 x

admits-allow_all :
    (fs : List (List Bytes × List Bytes)) (m : Allowed) (t x : Bytes)
    → admits (allow_all fs m) t x ≡ (admits m t x && all (filter_admits t x) fs)
unfolding allow_all
admits-allow_all [] m t x = ground arith
admits-allow_all (f ∷ fs) m t x =
    ground
      (arith, admits-allow_all fs (allow_targets f.0 f.1 m) t x, admits-allow_targets f.0 f.1 m t x)

-- Several filters with one target act as an "and": an index is allowed exactly if every filter that
-- names the target allows it, whatever the order of the filters.
pub admits-allow_all_iff :
    (fs : List (List Bytes × List Bytes)) (t x : Bytes)
    → admits (allow_all fs []) t x ≡ all (filter_admits t x) fs
unfolding admits
admits-allow_all_iff fs t x = admits-allow_all fs [] t x

-- A walk remains exactly if it is no target of the filter.
pub contains-update_walk_config :
    (walks : List Bytes) (filter : DynamicFilter) (x : Bytes)
    → contains (update_walk_config walks filter) x
      ≡ (not (contains filter.targets x) && contains walks x)
unfolding update_walk_config
contains-update_walk_config walks filter x =
    contains-keep (λ e. not (contains filter.targets e)) walks x
