-- ===== src/Collector/Scrape/Gets.antt =====
-- What the combined filters leave of the OIDs to get.
use snmp_exporter.Common.{
  ℕ, ◌≡◌, ◌≢◌, refl, ◌∙◌, Bool, true, false, not, ◌&&◌, ◌||◌, List, [], ◌∷◌, ◌++◌, map, arith, keep,
  all, append_assoc,
}
use snmp_exporter.Common.Text.{Bytes, equal, equal_iff, has_prefix, has_prefix-append}
use snmp_exporter.Collector.Scrape.{
  update_get_config, target_index, add_allowed_indices, Allowed, apply_allowed,
}
use snmp_exporter.Collector.Scrape.Filter.{contains-keep, contains-append}
use snmp_exporter.Common.Text.{contains}

-- The get config after one combined target.
restrict : Bytes → List Bytes → List Bytes → List Bytes
restrict target l gets =
    add_allowed_indices (target ∷ []) l
      (update_get_config gets (record { oid = []; targets = target ∷ []; values = [] }))

contains-restrict :
    (target : Bytes) (l gets : List Bytes) (x : Bytes)
    → contains (restrict target l gets) x
      ≡ ((not (has_prefix x target) && contains gets x) || contains (map (target_index target) l) x)
unfolding restrict add_allowed_indices update_get_config
contains-restrict target l gets x =
    contains-append (keep (λ e. not (has_prefix e target || false)) gets) _ x
    ∙ rw (contains-keep (λ e. not (has_prefix e target || false)) gets x) (ground arith)

apply_allowed-restrict :
    (target : Bytes) (l : List Bytes) (m : Allowed) (gets : List Bytes)
    → apply_allowed ((target, l) ∷ m) gets ≡ apply_allowed m (restrict target l gets)
unfolding apply_allowed restrict
apply_allowed-restrict target l m gets = refl

-- No target of the list is a prefix of the entry.
abbrev pub clear_of : Bytes → Allowed → Bool
clear_of x m = all (λ e. not (has_prefix x e.0)) m

apply_allowed-keeps :
    (m : Allowed) (gets : List Bytes) (x : Bytes)
    → clear_of x m ≡ true
    → contains gets x ≡ true
    → contains (apply_allowed m gets) x ≡ true
apply_allowed-keeps [] gets x h k = unfold apply_allowed in k
apply_allowed-keeps ((t, l) ∷ m) gets x h k = rw (apply_allowed-restrict t l m gets) (
    apply_allowed-keeps m (restrict t l gets) x (ground arith)
      (ground (arith, contains-restrict t l gets x)))

contains-map :
    (f : Bytes → Bytes) (l : List Bytes) (i : Bytes)
    → contains l i ≡ true
    → contains (map f l) (f i) ≡ true
contains-map f [] i h = cc
contains-map f (j ∷ l) i h =
    ground (arith, equal_iff i j, equal_iff (f i) (f j), contains-map f l i)

-- An allowed index is asked for, under its target, where no later target is a prefix of the entry.
pub apply_allowed-allowed :
    (target : Bytes) (l : List Bytes) (m : Allowed) (gets : List Bytes) (i : Bytes)
    → contains l i ≡ true
    → clear_of (target_index target i) m ≡ true
    → contains (apply_allowed ((target, l) ∷ m) gets) (target_index target i) ≡ true
apply_allowed-allowed target l m gets i h k = rw (apply_allowed-restrict target l m gets) (
    apply_allowed-keeps m (restrict target l gets) _ k (
      ground (
        arith,
        contains-restrict target l gets (target_index target i),
        contains-map (target_index target) l i h,
      )))

equal-append : (a x y : Bytes) → equal (a ++ x) (a ++ y) ≡ equal x y
unfolding equal
equal-append [] x y = refl
equal-append (c ∷ a) x y = ground (arith, equal-append a x y)

other_target :
    (a : Bytes) (c : ℕ) (r i : Bytes) (l : List Bytes)
    → c ≢ b'.'
    → contains (map (target_index a) l) (target_index (a ++ (c ∷ r)) i) ≡ false
unfolding equal
other_target a c r i [] h = refl
other_target a c r i (j ∷ l) h = ground (
  arith,
  append_assoc a (c ∷ r) (b'.' ∷ i),
  equal-append a ((c ∷ r) ++ (b'.' ∷ i)) (b'.' ∷ j),
  other_target a c r i l h,
)

-- A target that is a prefix of an earlier target, but not its parent, takes away every entry of the
-- earlier one: the check is on the text of the OIDs and not on their components.
pub apply_allowed-shadows :
    (a : Bytes) (c : ℕ) (r : Bytes) (l k gets : List Bytes) (i : Bytes)
    → c ≢ b'.'
    → contains
        (apply_allowed ((a ++ (c ∷ r), l) ∷ (a, k) ∷ []) gets)
        (target_index (a ++ (c ∷ r)) i)
      ≡ false
apply_allowed-shadows a c r l k gets i h =
    rw
      (
        apply_allowed-restrict (a ++ (c ∷ r)) l ((a, k) ∷ []) gets,
        apply_allowed-restrict a k [] (restrict (a ++ (c ∷ r)) l gets),
      )
      (unfold apply_allowed in
        ground (
          arith,
          contains-restrict a k (restrict (a ++ (c ∷ r)) l gets) (target_index (a ++ (c ∷ r)) i),
          other_target a c r i k h,
          append_assoc a (c ∷ r) (b'.' ∷ i),
          has_prefix-append a ((c ∷ r) ++ (b'.' ∷ i)),
        ))
