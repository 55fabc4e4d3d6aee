-- ===== src/Collector/Oid.antt =====
-- Object identifiers as text and as lists of integers: `oidToList`, `listToOid`, `splitOid` and
-- `getPrevOid` of collector/collector.go.
pub mod RoundTrip
pub mod Split
use snmp_exporter.Common.{
  ℕ, zero, suc, ◌+◌, ◌-◌, ◌≤◌, ◌<◌, ◌≡◌, refl, sym, ap, ◌∙◌, ◌≢◌, Bool, true, false, List, [], ◌∷◌,
  ◌++◌, arith, map,
}
use snmp_exporter.Common.Int.{ℤ, pos, negsuc, pred_int}
use snmp_exporter.Common.Text.{Bytes, split, join}
use snmp_exporter.Common.Decimal.{atoi, itoa}

abbrev pub Oid : Type 0
Oid = List ℤ

-- `oidToList`: the error of `Atoi` is dropped, so a part that is no number counts as its value.
unfoldable pub oid_to_list : Bytes → Oid
oid_to_list oid = map atoi (split oid b'.')

-- The loop of `listToOid`, from the second element on.
unfoldable pub list_to_oid_rest : Oid → Bytes
list_to_oid_rest [] = []
list_to_oid_rest (o ∷ l) = b'.' ∷ (itoa o ++ list_to_oid_rest l)

unfoldable pub list_to_oid : Oid → Bytes
unfolding list_to_oid_rest
list_to_oid [] = []
list_to_oid (o ∷ l) = itoa o ++ list_to_oid_rest l

-- `splitOid`: the first `count` elements, padded with zeros, and the rest.
unfoldable pub split_oid : Oid → ℕ → Oid × Oid
split_oid oid zero = ([], oid)
split_oid [] (suc count) = (pos 0 ∷ (split_oid [] count).0, [])
split_oid (o ∷ oid) (suc count) = (o ∷ (split_oid oid count).0, (split_oid oid count).1)

-- The last part of a split text, with the number before it in its place.
unfoldable pub set_last_pred : List Bytes → List Bytes
set_last_pred [] = []
set_last_pred (p ∷ []) = itoa (pred_int (atoi p)) ∷ []
set_last_pred (p ∷ q ∷ ps) = p ∷ set_last_pred (q ∷ ps)

-- `getPrevOid`.
unfoldable pub get_prev_oid : Bytes → Bytes
unfolding set_last_pred
get_prev_oid oid = join (set_last_pred (split oid b'.')) b'.'
