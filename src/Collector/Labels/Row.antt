-- ===== src/Collector/Labels/Row.antt =====
-- The OID that a lookup by all the labels of a row asks for.
use snmp_exporter.Common.{
  ◌≡◌, refl, sym, ap, ◌∙◌, Bool, false, List, [], ◌∷◌, ◌++◌, map, if◌then◌else◌, Option, some,
  ◌>>=◌, >>=-eq-some, All, any, length, arith, append_assoc, append-nil,
}
use mathlib.Core.Option.{some-injective}
use snmp_exporter.Common.Text.{Bytes, equal, equal_refl}
use snmp_exporter.Common.Decimal.{itoa}
use snmp_exporter.Common.Map.{insert, lookup-insert}
use snmp_exporter.Collector.Oid.{Oid, list_to_oid, list_to_oid_rest, split_oid}
use snmp_exporter.Collector.Index.{Index, index_oids_as_string}
use snmp_exporter.Collector.Index.Cut.{Cuts, Cuts-append, index_oids_as_string-Cuts}
use snmp_exporter.Collector.Labels.{IndexConfig, Labels, read_indexes, label_oid, lookup_oid}

-- The oids that each index of a row uses.
unfoldable pub index_parts : Oid → List IndexConfig → Option (List Oid)
index_parts oids [] = some []
index_parts oids (index ∷ indexes) = do
  i ← index_oids_as_string oids index.type_ index.fixed_size index.implied index.enum_values
  parts ← index_parts i.remaining indexes
  some (i.used ∷ parts)

abbrev pub flatten : List Oid → Oid
flatten [] = []
flatten (p ∷ parts) = p ++ flatten parts

abbrev pub label_is : Bytes → IndexConfig → Bool
label_is label index = equal index.labelname label

-- No label has the name of another one.
abbrev pub DistinctLabels : List IndexConfig → Type 0
DistinctLabels [] = Unit
DistinctLabels (index ∷ indexes) =
    (any (label_is index.labelname) indexes ≡ false) × DistinctLabels indexes

abbrev pub NonEmpty : Oid → Type 0
NonEmpty [] = ⊥
NonEmpty (o ∷ oids) = Unit

abbrev pub no_labels : Labels
no_labels = record { labels = []; label_oids = [] }

list_to_oid_rest-append :
    (a b : Oid) → list_to_oid_rest (a ++ b) ≡ list_to_oid_rest a ++ list_to_oid_rest b
unfolding list_to_oid_rest
list_to_oid_rest-append [] b = refl
list_to_oid_rest-append (o ∷ a) b =
    ap (λ l. b'.' ∷ l)
      (rw (list_to_oid_rest-append a b) (sym (append_assoc (itoa o) _ (list_to_oid_rest b))))

list_to_oid-dot : (p : Oid) → NonEmpty p → b'.' ∷ list_to_oid p ≡ list_to_oid_rest p
unfolding list_to_oid list_to_oid_rest
list_to_oid-dot [] h = absurd h
list_to_oid-dot (o ∷ p) h = refl

index_parts-cons :
    (oids : Oid) (index : IndexConfig) (indexes : List IndexConfig) (parts : List Oid) (i : Index)
    → index_oids_as_string oids index.type_ index.fixed_size index.implied index.enum_values
      ≡ some i
    → index_parts oids (index ∷ indexes) ≡ some parts
    → (rest : List Oid) × (index_parts i.remaining indexes ≡ some rest) × (i.used ∷ rest ≡ parts)
unfolding index_parts
index_parts-cons oids index indexes parts i ei p =
    let (rest, er, e) = >>=-eq-some (index_parts i.remaining indexes) _ (rw ei at p) in
    (rest, er, some-injective (i.used ∷ rest) parts e)

-- The parts one after another are the first oids of the row.
flatten-Cuts :
    (oids : Oid) (indexes : List IndexConfig) (parts : List Oid)
    → index_parts oids indexes ≡ some parts
    → (rest : Oid) × Cuts oids (flatten parts) rest
unfolding index_parts
flatten-Cuts oids [] parts e =
    let none_left : [] ≡ parts = some-injective [] parts e in
    (oids, rw (sym none_left) (unfold split_oid in refl))
flatten-Cuts oids (index ∷ indexes) parts e =
    let (i, ei, e1) = >>=-eq-some (index_oids_as_string oids index.type_ _ _ _) _ e in
    let (rest, er, same) = index_parts-cons oids index indexes parts i ei e in
    let (left, cuts) = flatten-Cuts i.remaining indexes rest er in
    (
      left,
      rw (sym same) (
          Cuts-append oids i.used (flatten rest) i.remaining left
            (index_oids_as_string-Cuts oids index.type_ _ _ _ ei) cuts),
    )

label_oid-insert :
    (k j : Bytes) (v : Oid) (m : List (Bytes × Oid))
    → label_oid (insert k v m) j ≡ (if equal k j then v else label_oid m j)
unfolding label_oid
label_oid-insert k j v m = ground (arith, lookup-insert k j v m)

-- A label keeps its oids where no later index has its name.
label_oid-read_indexes :
    (label : Bytes) (oids : Oid) (indexes : List IndexConfig) (l s : Labels)
    → read_indexes oids indexes l ≡ some s
    → any (label_is label) indexes ≡ false
    → label_oid s.label_oids label ≡ label_oid l.label_oids label
unfolding read_indexes
label_oid-read_indexes label oids [] l s e n =
    ap (λ (x : Labels). label_oid x.label_oids label) (sym (some-injective l s e))
label_oid-read_indexes label oids (index ∷ indexes) l s e n =
    let (i, ei, e1) = >>=-eq-some (index_oids_as_string oids index.type_ _ _ _) _ e in
    let other : equal index.labelname label ≡ false = ground arith in
    let later : any (label_is label) indexes ≡ false = ground arith in
    label_oid-read_indexes label i.remaining indexes _ s e1 later
    ∙ (label_oid-insert index.labelname label i.used l.label_oids ∙ rw other refl)

lookup_oid-read_indexes :
    (oids : Oid) (indexes : List IndexConfig) (l s : Labels) (parts : List Oid) (oid : Bytes)
    → read_indexes oids indexes l ≡ some s
    → index_parts oids indexes ≡ some parts
    → DistinctLabels indexes
    → All NonEmpty parts
    → lookup_oid s.label_oids oid (map (λ i. i.labelname) indexes)
      ≡ oid ++ list_to_oid_rest (flatten parts)
unfolding read_indexes index_parts lookup_oid list_to_oid_rest
lookup_oid-read_indexes oids [] l s parts oid e p d h =
    let none_left : [] ≡ parts = some-injective [] parts p in
    rw (sym none_left) (sym (append-nil oid))
lookup_oid-read_indexes oids (index ∷ indexes) l s parts oid e p (n, d) h =
    let (i, ei, e1) = >>=-eq-some (index_oids_as_string oids index.type_ _ _ _) _ e in
    let (rest, er, same) = index_parts-cons oids index indexes parts i ei p in
    let (filled, all_filled) : All NonEmpty (i.used ∷ rest) = rw (sym same) at h in
    let kept : label_oid s.label_oids index.labelname ≡ i.used =
      label_oid-read_indexes index.labelname i.remaining indexes _ s e1 n
      ∙ (label_oid-insert index.labelname index.labelname i.used l.label_oids
          ∙ rw (equal_refl index.labelname) refl) in
    let ih =
      lookup_oid-read_indexes i.remaining indexes _ s rest (oid ++ list_to_oid_rest i.used) e1 er d
        all_filled in
    let dotted : b'.' ∷ list_to_oid (label_oid s.label_oids index.labelname)
        ≡ list_to_oid_rest i.used =
      rw kept (list_to_oid-dot i.used filled) in
    let whole : list_to_oid_rest i.used ++ list_to_oid_rest (flatten rest)
        ≡ list_to_oid_rest (flatten parts) =
      sym (list_to_oid_rest-append i.used (flatten rest))
      ∙ ap (λ x. list_to_oid_rest (flatten x)) same in
    ap (λ x. lookup_oid s.label_oids (oid ++ x) (map (λ c. c.labelname) indexes)) dotted
    ∙ (ih ∙ (append_assoc oid _ _ ∙ ap (λ x. oid ++ x) whole))

-- Where the labels of a row's indexes have different names, a lookup by all of them asks for the
-- lookup's OID followed by the first oids of the row, with zeros where the row is too short: by the
-- row's own OID in another column. Each index uses one oid at least.
pub lookup_oid-row :
    (oids : Oid) (indexes : List IndexConfig) (s : Labels) (parts : List Oid) (oid : Bytes)
    → read_indexes oids indexes no_labels ≡ some s
    → index_parts oids indexes ≡ some parts
    → DistinctLabels indexes
    → All NonEmpty parts
    → lookup_oid s.label_oids oid (map (λ i. i.labelname) indexes)
      ≡ oid ++ list_to_oid_rest (split_oid oids (length (flatten parts))).0
lookup_oid-row oids indexes s parts oid e p d h =
    let (rest, cuts) = flatten-Cuts oids indexes parts p in
    lookup_oid-read_indexes oids indexes no_labels s parts oid e p d h ∙ rw cuts refl
