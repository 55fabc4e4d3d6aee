-- ===== src/Generator/Indexes/Panics.antt =====
-- Indexes that share the type of an address, in `generateConfigModule` of generator/tree.go.
use snmp_exporter.Common.{
  not, ◌&&◌, ap, ◌∙◌, ◌≡◌, refl, Bool, List, [], ◌∷◌, ◌++◌, Option, some, if_ind,
}
use snmp_exporter.Common.Text.{Bytes, equal, text}
use snmp_exporter.Collector.Labels.{IndexConfig}
use snmp_exporter.Generator.Tree.{NodeInfo, combined_types, metric_type, is_empty}
use snmp_exporter.Generator.Indexes.{
  type_with_enum, without_subtype, drop_last, drop_last_two, has_entries, Indexing, append_index,
  index_config, add_index, index_typed, add_indexes, unless_returned, indexes_of,
}
use snmp_exporter.Generator.Result.{ok, panic, ◌>>=◌}

-- A node for the type of an address, and one for an address, as `prepareTree` leaves them.
pub record IsAddressType (n : NodeInfo) : Type 0 where
  pub by_type : n.typ ≡ text "INTEGER"
  pub by_convention : n.textual_convention ≡ text "InetAddressType"

pub record IsAddress (n : NodeInfo) : Type 0 where
  pub by_type : n.typ ≡ text "InetAddress"
  pub by_convention : n.textual_convention ≡ text "InetAddress"
  pub no_enum : n.enum_values ≡ []

gauge_of_integer : metric_type (text "INTEGER") ≡ some (text "gauge")
unfolding metric_type combined_types text equal
gauge_of_integer = refl

address_of_address : metric_type (text "InetAddress") ≡ some (text "InetAddress")
unfolding metric_type combined_types text equal
address_of_address = refl

gauge_alone :
    (n : NodeInfo) (s : Indexing)
    → without_subtype (type_with_enum (text "gauge") n) s ≡ ok (some s.indexes)
unfolding without_subtype type_with_enum combined_types text equal
gauge_alone n s =
    if_ind (λ t. without_subtype t s ≡ ok (some s.indexes))
      (has_entries n.enum_values
        && not (equal (text "gauge") (text "EnumAsStateSet"))
        && not (equal n.typ (text "gauge")))
      {x = text "EnumAsInfo"} {y = text "gauge"} refl refl

plain_type : (n : NodeInfo) (t : Bytes) → n.enum_values ≡ [] → type_with_enum t n ≡ t
unfolding type_with_enum
plain_type n t p = rw p refl

-- The round where the type is supported and no subtype is missing.
abbrev indexed : NodeInfo → Bytes → Bool → Bytes → Bytes → List IndexConfig → Indexing
indexed n i implied t before l = record {
  prev_type = n.textual_convention;
  prev2_type = before;
  indexes = l ++ index_config i implied (type_with_enum t n) n ∷ [];
}

add_index-ok :
    (n : NodeInfo) (i : Bytes) (implied : Bool) (s : Indexing) (t : Bytes) (l : List IndexConfig)
    → metric_type n.typ ≡ some t
    → without_subtype (type_with_enum t n) s ≡ ok (some l)
    → add_index i implied s (some n) ≡ ok (some (indexed n i implied t s.prev_type l))
unfolding add_index index_typed
add_index-ok n i implied s t l p q =
    ap (index_typed n i implied s) p
    ∙ ap (λ w. w >>= λ kept. ok (append_index n i implied (type_with_enum t n) s.prev_type kept)) q

add_index-panics :
    (n : NodeInfo) (i : Bytes) (implied : Bool) (s : Indexing) (t : Bytes)
    → metric_type n.typ ≡ some t
    → without_subtype (type_with_enum t n) s ≡ panic
    → add_index i implied s (some n) ≡ panic
unfolding add_index index_typed
add_index-panics n i implied s t p q =
    ap (index_typed n i implied s) p
    ∙ ap (λ w. w >>= λ kept. ok (append_index n i implied (type_with_enum t n) s.prev_type kept)) q

type_index :
    (n : NodeInfo) (i : Bytes) (implied : Bool) (s : Indexing)
    → IsAddressType n
    → add_index i implied s (some n)
      ≡ ok (some (indexed n i implied (text "gauge") s.prev_type s.indexes))
type_index n i implied s p =
    add_index-ok n i implied s (text "gauge") s.indexes
      (ap metric_type p.by_type ∙ gauge_of_integer) (gauge_alone n s)

behind_type :
    (prev prev2 : Bytes) (x : IndexConfig)
    → prev ≡ text "InetAddressType"
    → without_subtype
        (text "InetAddress")
        (record { prev_type = prev; prev2_type = prev2; indexes = x ∷ [] })
      ≡ ok (some [])
unfolding without_subtype drop_last combined_types text equal
behind_type prev prev2 x p = rw p refl

two_behind_type :
    (prev prev2 : Bytes) (x : IndexConfig)
    → prev ≡ text "InetAddress"
    → prev2 ≡ text "InetAddressType"
    → without_subtype
        (text "InetAddress")
        (record { prev_type = prev; prev2_type = prev2; indexes = x ∷ [] })
      ≡ panic
unfolding without_subtype drop_last_two drop_last combined_types text equal
two_behind_type prev prev2 x p q = rw (p, q) refl

-- The address takes the place of its type.
address_index :
    (n t : NodeInfo) (i : Bytes) (implied : Bool) (x : IndexConfig) (before : Bytes)
    → IsAddressType t
    → IsAddress n
    → add_index i implied
        (record { prev_type = t.textual_convention; prev2_type = before; indexes = x ∷ [] })
        (some n)
      ≡ ok (some (indexed n i implied (text "InetAddress") t.textual_convention []))
address_index n t i implied x before u p =
    add_index-ok n i implied _ (text "InetAddress") []
      (ap metric_type p.by_type ∙ address_of_address)
      (ap
          (λ c.
            without_subtype c
              (record { prev_type = t.textual_convention; prev2_type = before; indexes = x ∷ [] }))
          (plain_type n (text "InetAddress") p.no_enum)
        ∙ behind_type t.textual_convention before x u.by_convention)

-- The next one finds the type two places back, where there is only one index.
second_address_index :
    (n a t : NodeInfo) (i : Bytes) (implied : Bool) (x : IndexConfig)
    → IsAddressType t
    → IsAddress a
    → IsAddress n
    → add_index i implied
        (record {
          prev_type = a.textual_convention;
          prev2_type = t.textual_convention;
          indexes = x ∷ [];
        })
        (some n)
      ≡ panic
second_address_index n a t i implied x u v p =
    add_index-panics n i implied _ (text "InetAddress")
      (ap metric_type p.by_type ∙ address_of_address)
      (ap
          (λ c. without_subtype c (record {
            prev_type = a.textual_convention;
            prev2_type = t.textual_convention;
            indexes = x ∷ [];
          }))
          (plain_type n (text "InetAddress") p.no_enum)
        ∙ two_behind_type a.textual_convention t.textual_convention x v.by_convention
            u.by_convention)

module _ (name_to_node : Bytes → Option NodeInfo) (implied : Bool) where
  add_indexes-next :
      (i : Bytes) (l : List Bytes) (n : NodeInfo) (s u : Indexing)
      → name_to_node i ≡ some n
      → add_index i (implied && is_empty l) s (some n) ≡ ok (some u)
      → add_indexes name_to_node implied (i ∷ l) s ≡ add_indexes name_to_node implied l u
  unfolding add_indexes
  add_indexes-next i l n s u p q =
      ap
        (λ o.
          add_index i (implied && is_empty l) s o
          >>= unless_returned (add_indexes name_to_node implied l))
        p
      ∙ ap (λ w. w >>= unless_returned (add_indexes name_to_node implied l)) q

  add_indexes-panics :
      (i : Bytes) (l : List Bytes) (n : NodeInfo) (s : Indexing)
      → name_to_node i ≡ some n
      → add_index i (implied && is_empty l) s (some n) ≡ panic
      → add_indexes name_to_node implied (i ∷ l) s ≡ panic
  unfolding add_indexes
  add_indexes-panics i l n s p q =
      ap
        (λ o.
          add_index i (implied && is_empty l) s o
          >>= unless_returned (add_indexes name_to_node implied l))
        p
      ∙ ap (λ w. w >>= unless_returned (add_indexes name_to_node implied l)) q

-- Where the indexes of a node start with the type of an address and two addresses, their loop panics,
-- whatever the names of the indexes and the indexes behind them.
pub indexes_of-panics :
    (name_to_node : Bytes → Option NodeInfo) (n : NodeInfo) (i j k : Bytes) (l : List Bytes)
    (t a b : NodeInfo)
    → n.indexes ≡ i ∷ j ∷ k ∷ l
    → name_to_node i ≡ some t
    → name_to_node j ≡ some a
    → name_to_node k ≡ some b
    → IsAddressType t
    → IsAddress a
    → IsAddress b
    → indexes_of name_to_node n ≡ panic
unfolding indexes_of
indexes_of-panics name_to_node n i j k l t a b e p q r u v w =
    let m = n.implied_index in
    ap
      (λ is.
        add_indexes name_to_node m is (record { prev_type = []; prev2_type = []; indexes = [] }))
      e
    ∙ add_indexes-next name_to_node m i (j ∷ k ∷ l) t _ _ p (type_index t i _ _ u)
    ∙ add_indexes-next name_to_node m j (k ∷ l) a _ _ q (address_index a t j _ _ _ u v)
    ∙ add_indexes-panics name_to_node m k l b _ r (second_address_index b a t k _ _ u v w)
