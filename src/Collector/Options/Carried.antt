-- ===== src/Collector/Options/Carried.antt =====
-- What the scrape of a module in collector/collector.go has of the options of the modules before it.
use snmp_exporter.Common.{
  ◌≡◌, refl, Bool, true, false, ◌||◌, List, [], ◌∷◌, arith, any, if◌then◌else◌, Option, some, none,
  ◌>>=◌, >>=-eq-some, Option-cases, inl, inr,
}
use mathlib.Core.Path.{subst}
use snmp_exporter.Common.Int.{ℤ}
use snmp_exporter.Common.Text.{text, equal}
use snmp_exporter.Common.Map.{lookup}
use snmp_exporter.Config.WalkParams.{WalkParams}
use snmp_exporter.Collector.Options.{ClientOptions, walk_options, set_walk_options, module_options}

-- `AppOpts["c"]` is set, by which gosnmp takes OIDs that do not increase.
unfoldable pub skips_check : ClientOptions → Bool
unfolding lookup equal text
skips_check g = elim (lookup (text "c") g.app_opts) [ some b ↦ b | none ↦ false ]

-- The options are the module's own, but for the check of the OIDs, which is off where it was or where
-- the module turns it off.
abbrev pub Own : Bool → WalkParams ℤ → ClientOptions → Type 0
Own before p g =
    (p.retries ≡ some g.retries)
    × ((g.timeout ≡ p.timeout)
        × ((g.max_repetitions ≡ p.max_repetitions)
            × ((g.use_unconnected_udp_socket ≡ p.use_unconnected_udp_socket)
                × (skips_check g ≡ (before || p.allow_non_increasing_oids)))))

abbrev pub AllOwn : Bool → List (WalkParams ℤ) → List ClientOptions → Type 0
AllOwn before [] [] = Unit
AllOwn before [] (g ∷ options) = ⊥
AllOwn before (p ∷ modules) [] = ⊥
AllOwn before (p ∷ modules) (g ∷ options) =
    Own before p g × AllOwn (before || p.allow_non_increasing_oids) modules options

abbrev pub lacks_retries : WalkParams ℤ → Bool
lacks_retries p = elim p.retries [ none ↦ true | some r ↦ false ]

abbrev pub Carried : Bool → List (WalkParams ℤ) → Option (List ClientOptions) → Type 0
Carried before modules none = any lacks_retries modules ≡ true
Carried before modules (some options) = AllOwn before modules options

walk_options-skips_check :
    (p : WalkParams ℤ) (r : ℤ) (g : ClientOptions)
    → skips_check (walk_options p r g) ≡ (skips_check g || p.allow_non_increasing_oids)
unfolding walk_options skips_check
walk_options-skips_check p r g = by_option p.allow_non_increasing_oids
  where
    by_option :
        (b : Bool)
        → skips_check (record g { app_opts = if b then (text "c", true) ∷ [] else g.app_opts })
          ≡ (skips_check g || b)
    by_option true = ground arith
    by_option false = ground arith

some-injective : {A : Type 0} (a b : A) → some a ≡ some b → a ≡ b
some-injective a b e = cc

set_walk_options-Own :
    (p : WalkParams ℤ) (g h : ClientOptions)
    → set_walk_options p g ≡ some h
    → Own (skips_check g) p h
unfolding set_walk_options walk_options
set_walk_options-Own p g h e =
    let (r, q, f) = >>=-eq-some p.retries (λ r. some (walk_options p r g)) e in
    subst (Own (skips_check g) p) (some-injective (walk_options p r g) h f)
      (q, (refl, (refl, (refl, walk_options-skips_check p r g))))

set_walk_options-none :
    (p : WalkParams ℤ) (g : ClientOptions) → set_walk_options p g ≡ none → lacks_retries p ≡ true
unfolding set_walk_options
set_walk_options-none p g e = by_pointer p.retries e
  where
    by_pointer :
        (o : Option ℤ)
        → (o >>= λ r. some (walk_options p r g)) ≡ none
        → (elim o as (λ x. Bool) [ none ↦ true | some r ↦ false ]) ≡ true
    by_pointer none q = refl
    by_pointer (some r) q = cc

-- The rest of the modules, by how it goes.
Carried-next :
    (before : Bool) (p : WalkParams ℤ) (modules : List (WalkParams ℤ)) (h : ClientOptions)
    (rest : Option (List ClientOptions))
    → Own before p h
    → Carried (before || p.allow_non_increasing_oids) modules rest
    → Carried before (p ∷ modules) (do options ← rest; some (h ∷ options))
Carried-next before p modules h none own c = ground (arith, c)
Carried-next before p modules h (some options) own c = (own, c)

-- A worker panics where a module has no count of retries. Otherwise each of its modules is scraped with
-- its own options, but the check that the OIDs increase stays off once a module has turned it off.
pub module_options-Carried :
    (modules : List (WalkParams ℤ)) (g : ClientOptions)
    → Carried (skips_check g) modules (module_options modules g)
unfolding module_options
module_options-Carried [] g = tt
module_options-Carried (p ∷ modules) g = elim (Option-cases (set_walk_options p g)) [
  | inl e ↦ rw (e, module_options) (ground (arith, set_walk_options-none p g e))
  | inr (h, e) ↦
      let own = set_walk_options-Own p g h e in
      rw (e, module_options)
        (Carried-next (skips_check g) p modules h (module_options modules h) own (
          subst (λ b. Carried b modules (module_options modules h)) own.1.1.1.1
            (module_options-Carried modules h)))
]
