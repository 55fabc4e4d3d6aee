-- ===== src/Generator/Minimize.antt =====
-- `minimizeOids` of generator/tree.go: the reduction of a set of overlapping OID subtrees.
pub mod Cover
use snmp_exporter.Common.{
  ℕ, ◌≡◌, Bool, true, false, not, ◌&&◌, ◌||◌, List, [], ◌∷◌, ◌++◌, arith, ltb, ◌==◌, if◌then◌else◌,
}
use snmp_exporter.Common.Text.{Bytes, equal, has_prefix}

-- `a <= b` on strings, byte by byte.
unfoldable pub leb_text : Bytes → Bytes → Bool
leb_text [] b = true
leb_text (x ∷ a) [] = false
leb_text (x ∷ a) (y ∷ b) = ltb x y || (x == y && leb_text a b)

unfoldable pub insert_sorted : Bytes → List Bytes → List Bytes
insert_sorted x [] = x ∷ []
insert_sorted x (y ∷ l) = if leb_text x y then x ∷ y ∷ l else y ∷ insert_sorted x l

-- `sort.Strings`, of which only the result counts: the texts in their order.
unfoldable pub sort_strings : List Bytes → List Bytes
unfolding leb_text insert_sorted
sort_strings [] = []
sort_strings (x ∷ l) = insert_sorted x (sort_strings l)

-- `oid + "."`.
abbrev pub dotted : Bytes → Bytes
dotted oid = oid ++ b'.' ∷ []

-- The loop, with `prevOid`.
unfoldable pub minimize_from : Bytes → List Bytes → List Bytes
minimize_from prev_oid [] = []
minimize_from prev_oid (oid ∷ oids) =
    let kept = oid ∷ minimize_from (dotted oid) oids in
    let dropped = minimize_from prev_oid oids in
    if not (has_prefix (dotted oid) prev_oid) || equal prev_oid [] then kept else dropped

unfoldable pub minimize_oids : List Bytes → List Bytes
minimize_oids oids = minimize_from [] (sort_strings oids)
