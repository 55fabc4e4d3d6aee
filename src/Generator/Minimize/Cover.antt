-- ===== src/Generator/Minimize/Cover.antt =====
-- The reduced OIDs cover the same subtrees.
use snmp_exporter.Common.{
  ◌≡◌, refl, Bool, true, not, ◌&&◌, ◌||◌, List, [], ◌∷◌, arith, any, append-nil,
}
use snmp_exporter.Common.Text.{Bytes, equal, equal_iff, equal_refl, has_prefix, has_prefix-append}
use snmp_exporter.Generator.Minimize.{
  insert_sorted, sort_strings, dotted, minimize_from, minimize_oids,
}
use snmp_exporter.Common.Text.{contains}

-- The OID lies in the subtree of the other, or is the same.
abbrev pub covers : Bytes → Bytes → Bool
covers oid root = has_prefix (dotted oid) (dotted root)

contains-insert_sorted :
    (x : Bytes) (l : List Bytes) (y : Bytes)
    → contains (insert_sorted x l) y ≡ (equal y x || contains l y)
unfolding insert_sorted
contains-insert_sorted x [] y = refl
contains-insert_sorted x (z ∷ l) y = ground (arith, contains-insert_sorted x l y)

-- Sorting keeps the elements.
pub contains-sort_strings :
    (l : List Bytes) (y : Bytes) → contains (sort_strings l) y ≡ contains l y
unfolding sort_strings
contains-sort_strings [] y = refl
contains-sort_strings (x ∷ l) y =
    ground (arith, contains-insert_sorted x (sort_strings l) y, contains-sort_strings l y)

has_prefix_refl : (s : Bytes) → has_prefix s s ≡ true
has_prefix_refl s = rw append-nil at (has_prefix-append s [])

-- Every element is kept, or lies below the one kept last before it.
minimize_from-covers :
    (prev : Bytes) (l : List Bytes) (x : Bytes)
    → contains l x ≡ true
    → ((has_prefix (dotted x) prev && not (equal prev [])) || any (covers x) (minimize_from prev l))
      ≡ true
unfolding minimize_from
minimize_from-covers prev [] x h = cc
minimize_from-covers prev (y ∷ l) x h = ground (
  arith,
  equal_iff x y,
  has_prefix_refl (dotted x),
  minimize_from-covers prev l x,
  minimize_from-covers (dotted y) l x,
)

-- Each OID is in the subtree of one that remains.
pub minimize_oids-covers :
    (l : List Bytes) (x : Bytes) → contains l x ≡ true → any (covers x) (minimize_oids l) ≡ true
unfolding minimize_oids
minimize_oids-covers l x h =
    ground
      (arith, minimize_from-covers [] (sort_strings l) x, contains-sort_strings l x, equal_refl [])

-- Each OID that remains is one of those given.
minimize_from-contains :
    (prev : Bytes) (l : List Bytes) (x : Bytes)
    → contains (minimize_from prev l) x ≡ true
    → contains l x ≡ true
unfolding minimize_from
minimize_from-contains prev [] x h = h
minimize_from-contains prev (y ∷ l) x h =
    ground (arith, minimize_from-contains prev l x, minimize_from-contains (dotted y) l x)

pub minimize_oids-contains :
    (l : List Bytes) (x : Bytes) → contains (minimize_oids l) x ≡ true → contains l x ≡ true
unfolding minimize_oids
minimize_oids-contains l x h =
    ground (arith, minimize_from-contains [] (sort_strings l) x, contains-sort_strings l x)
