-- ===== src/Generator/Indexes.antt =====
-- The indexes of a metric in `generateConfigModule` of generator/tree.go, with `sanitizeLabelName`.
pub mod Panics
use snmp_exporter.Common.{
  ℕ, zero, suc, Bool, true, false, not, ◌&&◌, ◌||◌, List, [], ◌∷◌, ◌++◌, ◌-◌, leb, ◌==◌,
  if◌then◌else◌, Option, some, none,
}
use snmp_exporter.Common.Text.{Bytes, equal, text}
use snmp_exporter.Common.Utf8.{rune_width}
use snmp_exporter.Collector.Index.{EnumMap}
use snmp_exporter.Collector.Labels.{IndexConfig}
use snmp_exporter.Generator.Tree.{NodeInfo, combined_types, metric_type, is_empty}
use snmp_exporter.Generator.Result.{Result, ok, panic, ◌>>=◌}

-- `[a-zA-Z0-9_]`.
unfoldable pub is_label_char : ℕ → Bool
is_label_char c =
    (leb b'a' c && leb c b'z')
    || (leb b'A' c && leb c b'Z')
    || (leb b'0' c && leb c b'9')
    || c == b'_'

abbrev pub has_entries : EnumMap → Bool
has_entries [] = false
has_entries (e ∷ m) = true

-- An enum turns the type of an index or a lookup into "EnumAsInfo".
unfoldable pub type_with_enum : Bytes → NodeInfo → Bytes
type_with_enum t n =
    if has_entries n.enum_values
      && not (equal t (text "EnumAsStateSet"))
      && not (equal n.typ (text "gauge"))
    then text "EnumAsInfo"
    else t

-- `l[:len(l)-1]`; `none` is the panic where the list is empty.
unfoldable pub drop_last {ℓ} : {A : Type ℓ} → List A → Option (List A)
drop_last [] = none
drop_last (x ∷ []) = some []
drop_last (x ∷ y ∷ l) = elim (drop_last (y ∷ l)) [ some m ↦ some (x ∷ m) | none ↦ none ]

-- `l[:len(l)-2]`.
unfoldable pub drop_last_two {ℓ} : {A : Type ℓ} → List A → Option (List A)
unfolding drop_last
drop_last_two l = elim (drop_last l) [ some m ↦ drop_last m | none ↦ none ]

-- What the loop carries: `prevType`, `prev2Type` and `metric.Indexes`.
pub record Indexing : Type 0 where
  pub prev_type : Bytes
  pub prev2_type : Bytes
  pub indexes : List IndexConfig

-- The indexes in which a combined one takes the place of its type: `ok none` where the type is
-- missing.
unfoldable pub without_subtype : Bytes → Indexing → Result (Option (List IndexConfig))
unfolding drop_last drop_last_two
without_subtype t s = elim (combined_types t) [
  | none ↦ ok (some s.indexes)
  | some subtype ↦
      if equal subtype s.prev_type
      then in_bounds (drop_last s.indexes)
      else if equal subtype s.prev2_type
      then in_bounds (drop_last_two s.indexes)
      else ok none
]
  where
    in_bounds : Option (List IndexConfig) → Result (Option (List IndexConfig))
    in_bounds none = panic
    in_bounds (some l) = ok (some l)

-- `index` for the name `i`, before its label name is sanitized.
abbrev pub index_config : Bytes → Bool → Bytes → NodeInfo → IndexConfig
index_config i implied t n = record {
  labelname = i;
  type_ = t;
  fixed_size = n.fixed_size;
  implied = implied;
  enum_values = n.enum_values;
}

-- `append`, where the type of the index is not missing.
abbrev pub append_index :
    NodeInfo → Bytes → Bool → Bytes → Bytes → Option (List IndexConfig) → Option Indexing
append_index n i implied t before none = none
append_index n i implied t before (some l) = some (record {
  prev_type = n.textual_convention;
  prev2_type = before;
  indexes = l ++ index_config i implied t n ∷ [];
})

-- The round for one index, once its type is looked up: `ok none` is the `return` that leaves the
-- metric out.
unfoldable pub index_typed :
    NodeInfo → Bytes → Bool → Indexing → Option Bytes → Result (Option Indexing)
unfolding without_subtype type_with_enum
index_typed n i implied s none = ok none
index_typed n i implied s (some t) = do
  kept ← without_subtype (type_with_enum t n) s
  ok (append_index n i implied (type_with_enum t n) s.prev_type kept)

unfoldable pub add_index : Bytes → Bool → Indexing → Option NodeInfo → Result (Option Indexing)
unfolding index_typed
add_index i implied s none = ok none
add_index i implied s (some n) = index_typed n i implied s (metric_type n.typ)

-- What follows a round that did not return.
abbrev pub unless_returned :
    (Indexing → Result (Option (List IndexConfig)))
    → Option Indexing
    → Result (Option (List IndexConfig))
unless_returned rest none = ok none
unless_returned rest (some s) = rest s

-- The loop, where `implied` is that of the node and counts for the last index.
unfoldable pub add_indexes :
    (Bytes → Option NodeInfo) → Bool → List Bytes → Indexing → Result (Option (List IndexConfig))
unfolding add_index
add_indexes name_to_node implied [] s = ok (some s.indexes)
add_indexes name_to_node implied (i ∷ l) s =
    add_index i (implied && is_empty l) s (name_to_node i)
    >>= unless_returned (add_indexes name_to_node implied l)

unfoldable pub indexes_of :
    (Bytes → Option NodeInfo) → NodeInfo → Result (Option (List IndexConfig))
unfolding add_indexes
indexes_of name_to_node n =
    add_indexes name_to_node n.implied_index n.indexes
      (record { prev_type = []; prev2_type = []; indexes = [] })

-- Character by character: `skip` counts the bytes left of one that is replaced.
unfoldable pub sanitize_from : ℕ → Bytes → Bytes
sanitize_from skip [] = []
sanitize_from (suc skip) (c ∷ s) = sanitize_from skip s
sanitize_from zero (c ∷ s) =
    (if is_label_char c then c else b'_') ∷ sanitize_from (rune_width (c ∷ s) - 1) s

unfoldable pub sanitize_label_name : Bytes → Bytes
unfolding sanitize_from
sanitize_label_name name = sanitize_from 0 name
