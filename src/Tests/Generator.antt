-- ===== src/Tests/Generator.antt =====
-- The theorems on the generator's trees at inputs.
use snmp_exporter.Common.{◌≡◌, refl, true, false, List, [], ◌∷◌, some, any}
use snmp_exporter.Common.Text.{Bytes, text, equal, has_prefix}
use snmp_exporter.Generator.Minimize.{
  sort_strings, insert_sorted, leb_text, minimize_from, minimize_oids,
}
use snmp_exporter.Generator.Minimize.Cover.{covers, minimize_oids-covers}
use snmp_exporter.Generator.Tree.{NodeInfo, Node, node, nil, cons, search_node_tree}
use snmp_exporter.Generator.Tree.Search.{Deepest, search_node_tree-Deepest}
use snmp_exporter.Common.Text.{contains}
use snmp_exporter.Common.Int.{pos}

abbrev walks : List Bytes
walks = text "1.3.10" ∷ text "1.3.1.5" ∷ text "1.3.1" ∷ []

minimized : minimize_oids walks ≡ text "1.3.1" ∷ text "1.3.10" ∷ []
unfolding minimize_oids minimize_from sort_strings insert_sorted leb_text has_prefix equal text
minimized = refl

walk_listed : contains walks (text "1.3.1.5") ≡ true
unfolding equal text
walk_listed = refl

minimize_oids-covers_example : any (covers (text "1.3.1.5")) (minimize_oids walks) ≡ true
minimize_oids-covers_example = minimize_oids-covers walks (text "1.3.1.5") walk_listed

minimized_listed : contains (minimize_oids walks) (text "1.3.10") ≡ true
unfolding minimize_oids minimize_from sort_strings insert_sorted leb_text has_prefix equal text
minimized_listed = refl

abbrev pub bare : Bytes → NodeInfo
bare oid = record {
  address = 0;
  oid = oid;
  subid = pos 0;
  mib = [];
  label = [];
  augments = [];
  description = [];
  typ = [];
  hint = [];
  textual_convention = [];
  fixed_size = pos 0;
  units = [];
  access = [];
  enum_values = [];
  indexes = [];
  implied_index = false;
}

abbrev tree : Node
tree =
    node (bare (text "1.3"))
      (cons (node (bare (text "1.3.10")) nil) (cons (node (bare (text "1.3.1")) nil) nil))

searched : search_node_tree (text "1.3.1.7") tree ≡ some (bare (text "1.3.1"))
unfolding search_node_tree has_prefix text
searched = refl

search_node_tree-Deepest_example : Deepest (text "1.3.1.7") (bare (text "1.3.1")) tree
search_node_tree-Deepest_example = search_node_tree-Deepest (text "1.3.1.7") tree searched
