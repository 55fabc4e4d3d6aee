-- ===== src/Generator/Generate/Isolated.antt =====
-- The modules of `generateConfig` in generator/main.go do not see what the others override.
use snmp_exporter.Common.{
  ℕ, ◌≤◌, ◌<◌, ◌≡◌, refl, ap, ◌∙◌, true, false, List, [], ◌∷◌, ◌++◌, arith, some, inl, inr,
  Option-cases, if_ind, All,
}
use mathlib.Core.Path.{subst}
use snmp_exporter.Common.Text.{Bytes, equal, equal_refl, text}
use snmp_exporter.Common.Map.{lookup, insert, lookup-insert, has_key, Distinct}
use snmp_exporter.Generator.Store.{
  Tree, Trees, at, no_trees, tree, Store, write, roots, walk_node, walk_nodes, NameMap, snapshot,
}
use snmp_exporter.Generator.Store.Frame.{occurs, occurs_below}
use snmp_exporter.Generator.ModuleConfig.{ModuleConfig, MetricOverrides}
use snmp_exporter.Generator.Walks.{override_types}
use snmp_exporter.Generator.Module.{Generated, add_module_names}
use snmp_exporter.Generator.Result.{ok, >>=-eq-ok, ok-injective}
use snmp_exporter.Generator.Netsnmp.{Heap, copy}
use snmp_exporter.Generator.Netsnmp.Copied.{
  copy-grows, copy-frame, copy-occurs, copy-snapshot, Allocated, anywhere, snapshot-agree,
}
use snmp_exporter.Generator.Generate.{
  ModuleInput, ModuleOutput, generate_module, generate_modules, after_module,
}

-- All names stand for nodes from an address on.
abbrev NamesFrom : ℕ → NameMap → Type 0
NamesFrom a names = (k : Bytes) (b : ℕ) → lookup k names ≡ some b → a ≤ b

nothing-NamesFrom : (a : ℕ) → NamesFrom a []
unfolding lookup
nothing-NamesFrom a k b e = cc

insert-NamesFrom :
    (a b : ℕ) (k : Bytes) (names : NameMap)
    → a ≤ b
    → NamesFrom a names
    → NamesFrom a (insert k b names)
insert-NamesFrom a b k names l n j c e = ground (arith, lookup-insert k j b names, n j c)

add_module_names-NamesFrom :
    (s : Store) (a b : ℕ) (l : List ℕ) (names : NameMap)
    → a ≤ b
    → NamesFrom a names
    → NamesFrom a (add_module_names s b l names)
unfolding add_module_names
add_module_names-NamesFrom s a b l names p n =
    let plain = insert-NamesFrom a b (s b).label _ p (insert-NamesFrom a b (s b).oid names p n) in
    if_ind (NamesFrom a) (equal (s b).mib []) plain
      (insert-NamesFrom a b ((s b).mib ++ text "::" ++ (s b).label) _ p plain)

module _ (s : Store) (a : ℕ) where
  mutual
    unfolding walk_node

    walk_node-NamesFrom :
        (t : Tree) (names : NameMap)
        → ((b : ℕ) → occurs b t ≡ true → a ≤ b)
        → NamesFrom a names
        → NamesFrom a (walk_node (add_module_names s) t names)
    walk_node-NamesFrom (at b children) names o n =
        walk_nodes-NamesFrom children (add_module_names s b (roots children) names)
          (λ c p. o c (ground arith))
          (add_module_names-NamesFrom s a b (roots children) names (o b (ground arith)) n)

    walk_nodes-NamesFrom :
        (ts : Trees) (names : NameMap)
        → ((b : ℕ) → occurs_below b ts ≡ true → a ≤ b)
        → NamesFrom a names
        → NamesFrom a (walk_nodes (add_module_names s) ts names)
    walk_nodes-NamesFrom no_trees names o n = n
    walk_nodes-NamesFrom (tree t ts) names o n =
        walk_nodes-NamesFrom ts (walk_node (add_module_names s) t names) (λ c p. o c (ground arith))
          (walk_node-NamesFrom t names (λ c p. o c (ground arith)) n)

module _ {F64 : Type 0} where
  override_types-frame :
      (names : NameMap) (a : ℕ) (overrides : List (Bytes × MetricOverrides F64)) (s : Store) (b : ℕ)
      → NamesFrom a names
      → b < a
      → override_types names overrides s b ≡ s b
  unfolding override_types write
  override_types-frame names a [] s b n p = refl
  override_types-frame names a ((name, params) ∷ overrides) s b n p =
      elim (Option-cases (lookup name names)) [
        | inl e ↦ ground (arith, e, override_types-frame names a overrides s b n p)
        | inr (c, e) ↦ ground (
          arith,
          e,
          n name c e,
          override_types-frame names a overrides s b n p,
          override_types-frame names a overrides (write c (record (s c) { typ = params.typ }) s) b n
              p,
        )
      ]

  -- A module writes none of the nodes that were there before.
  after_module-frame :
      (nodes : Tree) (cfg : ModuleConfig F64) (h : Heap) (b : ℕ)
      → b < h.next
      → (after_module nodes cfg h).store b ≡ h.store b
  unfolding after_module
  after_module-frame nodes cfg h b p =
      override_types-frame _ h.next cfg.overrides (copy nodes h).1.store b
        (walk_node-NamesFrom (copy nodes h).1.store h.next (copy nodes h).0 []
          (λ c o. (copy-occurs nodes h c o).0) (nothing-NamesFrom h.next))
        p
      ∙ copy-frame nodes h b p

  after_module-grows :
      (nodes : Tree) (cfg : ModuleConfig F64) (h : Heap) → h.next ≤ (after_module nodes cfg h).next
  unfolding after_module
  after_module-grows nodes cfg h = omega (arith, copy-grows nodes h)

lookup-insert-same :
    {V : Type 0} (k : Bytes) (v : V) (m : List (Bytes × V)) → lookup k (insert k v m) ≡ some v
lookup-insert-same k v m = lookup-insert k k v m ∙ (rw (equal_refl k) refl)

lookup-insert-other :
    {V : Type 0} (k j : Bytes) (v : V) (m : List (Bytes × V))
    → equal k j ≡ false
    → lookup j (insert k v m) ≡ lookup j m
lookup-insert-other k j v m p = lookup-insert k j v m ∙ (rw p refl)

-- The nodes that were there at the start are as they were.
abbrev Same : Heap → Heap → Type 0
Same h g = (h.next ≤ g.next) × ((b : ℕ) → b < h.next → g.store b ≡ h.store b)

module _ {F64 I : Type 0} (zero : F64) (nodes : Tree) where
  -- The output has what was generated from a copy that is like the nodes of the heap, node by node,
  -- with the module's own walk parameters.
  abbrev pub FromCopy :
      Heap → List (Bytes × ModuleOutput F64 I) → Bytes × ModuleInput F64 I → Type 0
  FromCopy h out (name, m) =
      (g : Heap) × ((o : Generated F64) × ((anywhere
              (snapshot (copy nodes g).1.store (copy nodes g).0)
            ≡ anywhere (snapshot h.store nodes))
          × ((generate_module nodes zero m.config g ≡ ok o)
              × (lookup name out ≡ some (record { generated = o; walk_params = m.walk_params })))))

  -- Of a run from any state of the loop, over what the output has by then.
  abbrev Runs :
      Heap
      → List (Bytes × ModuleInput F64 I)
      → List (Bytes × ModuleOutput F64 I)
      → List (Bytes × ModuleOutput F64 I)
      → Type 0
  Runs h modules before out =
      All (FromCopy h out) modules
      × ((k : Bytes) → has_key modules k ≡ false → lookup k out ≡ lookup k before)

  generate_modules-Runs :
      (modules : List (Bytes × ModuleInput F64 I)) (h g : Heap)
      (before out : List (Bytes × ModuleOutput F64 I))
      → Distinct modules
      → Allocated h nodes
      → Same h g
      → generate_modules zero nodes modules g before ≡ ok out
      → Runs h modules before out
  unfolding generate_modules Distinct
  generate_modules-Runs [] h g before out d l s e =
      subst (Runs h [] before) (ok-injective before out e) (tt, λ k p. refl)
  generate_modules-Runs ((name, m) ∷ modules) h g before out (n, d) l (grows, same) e =
      let (o, made, e1) = >>=-eq-ok (generate_module nodes zero m.config g) _ e in
      let v : ModuleOutput F64 I = record { generated = o; walk_params = m.walk_params } in
      let more = after_module-grows nodes m.config g in
      let next = after_module nodes m.config g in
      let (all, kept) =
        generate_modules-Runs modules h next (insert name v before) out d l
          (omega arith, λ b p. after_module-frame nodes m.config g b (omega arith) ∙ same b p) e1 in
      (
        (
          (
            g,
            (
              o,
              (
                copy-snapshot nodes g (λ b p. omega (arith, l b p))
                    ∙ ap anywhere (snapshot-agree g.store h.store nodes (λ b p. same b (l b p))),
                (made, kept name n ∙ lookup-insert-same name v before),
              ),
            ),
          ),
          all,
        ),
        λ k p. kept k (ground arith) ∙ lookup-insert-other name k v before (ground arith),
      )

  -- Where the keys of the map are distinct and the nodes allocated: of a run that gives an output, each
  -- module was generated from a copy that is like the prepared tree, whatever the modules before it
  -- override, and stands in the output under its name with its own walk parameters.
  pub generate_modules-FromCopy :
      (modules : List (Bytes × ModuleInput F64 I)) (h : Heap)
      (out : List (Bytes × ModuleOutput F64 I))
      → Distinct modules
      → Allocated h nodes
      → generate_modules zero nodes modules h [] ≡ ok out
      → All (FromCopy h out) modules
  generate_modules-FromCopy modules h out d l e =
      (generate_modules-Runs modules h h [] out d l (omega arith, λ b p. refl) e).0
