-- ===== src/Collector/Oid/RoundTrip.antt =====
-- The two conversions of an object identifier, and the identifier before a given one.
use snmp_exporter.Common.{◌≡◌, refl, sym, ap, ◌∙◌, [], ◌∷◌, ◌++◌, map, All, append-nil}
use snmp_exporter.Common.Int.{ℤ, pred_int, IsInt64}
use snmp_exporter.Common.Text.{split, join, split_onto, split_onto-append, split_onto-Lacks}
use snmp_exporter.Common.Decimal.{atoi, itoa, atoi-itoa, itoa-Lacks}
use snmp_exporter.Collector.Oid.{
  Oid, oid_to_list, list_to_oid, list_to_oid_rest, get_prev_oid, set_last_pred,
}

split-list_to_oid_rest :
    (o : ℤ) (l : Oid) → split_onto b'.' [] (itoa o ++ list_to_oid_rest l) ≡ itoa o ∷ map itoa l
unfolding list_to_oid_rest
split-list_to_oid_rest o [] = rw append-nil (split_onto-Lacks b'.' [] (itoa o) (itoa-Lacks o))
split-list_to_oid_rest o (p ∷ l) =
    split_onto-append b'.' [] (itoa o) _ (itoa-Lacks o)
    ∙ ap (◌∷◌ (itoa o)) (split-list_to_oid_rest p l)

pub split-list_to_oid : (o : ℤ) (l : Oid) → split (list_to_oid (o ∷ l)) b'.' ≡ map itoa (o ∷ l)
unfolding split list_to_oid
split-list_to_oid o l = split-list_to_oid_rest o l

map-atoi-itoa : (l : Oid) → All IsInt64 l → map atoi (map itoa l) ≡ l
map-atoi-itoa [] h = refl
map-atoi-itoa (o ∷ l) (h, hs) = cc (atoi-itoa o h, map-atoi-itoa l hs)

-- Printing a list of one or more int64 components and reading it back gives the list.
pub oid_to_list-list_to_oid :
    (o : ℤ) (l : Oid) → All IsInt64 (o ∷ l) → oid_to_list (list_to_oid (o ∷ l)) ≡ o ∷ l
unfolding oid_to_list
oid_to_list-list_to_oid o l h = ap (map atoi) (split-list_to_oid o l) ∙ map-atoi-itoa (o ∷ l) h

join-map-itoa : (o : ℤ) (l : Oid) → join (map itoa (o ∷ l)) b'.' ≡ list_to_oid (o ∷ l)
unfolding join list_to_oid
join-map-itoa o [] = sym (append-nil (itoa o))
join-map-itoa o (p ∷ l) = ap (λ z. itoa o ++ (b'.' ∷ z)) (join-map-itoa p l)

set_last_pred-map-itoa :
    (l : Oid) (o : ℤ)
    → IsInt64 o
    → set_last_pred (map itoa (l ++ o ∷ [])) ≡ map itoa (l ++ pred_int o ∷ [])
unfolding set_last_pred
set_last_pred-map-itoa [] o h = rw (atoi-itoa o h)
set_last_pred-map-itoa (p ∷ []) o h = ap (◌∷◌ (itoa p)) (set_last_pred-map-itoa [] o h)
set_last_pred-map-itoa (p ∷ q ∷ l) o h = ap (◌∷◌ (itoa p)) (set_last_pred-map-itoa (q ∷ l) o h)

split-list_to_oid_concat :
    (l : Oid) (o : ℤ) → split (list_to_oid (l ++ o ∷ [])) b'.' ≡ map itoa (l ++ o ∷ [])
split-list_to_oid_concat [] o = split-list_to_oid o []
split-list_to_oid_concat (p ∷ l) o = split-list_to_oid p (l ++ o ∷ [])

join-map-itoa_concat :
    (l : Oid) (o : ℤ) → join (map itoa (l ++ o ∷ [])) b'.' ≡ list_to_oid (l ++ o ∷ [])
join-map-itoa_concat [] o = join-map-itoa o []
join-map-itoa_concat (p ∷ l) o = join-map-itoa p (l ++ o ∷ [])

-- The identifier before one whose last component is an int64 has that component less one, and the
-- same components before it.
pub get_prev_oid-list_to_oid :
    (l : Oid) (o : ℤ)
    → IsInt64 o
    → get_prev_oid (list_to_oid (l ++ o ∷ [])) ≡ list_to_oid (l ++ pred_int o ∷ [])
unfolding get_prev_oid
get_prev_oid-list_to_oid l o h =
    ap (λ ps. join (set_last_pred ps) b'.') (split-list_to_oid_concat l o)
    ∙ ap (λ ps. join ps b'.') (set_last_pred-map-itoa l o h)
    ∙ join-map-itoa_concat l (pred_int o)
