-- ===== src/Config/WalkParams/Decoded.antt =====
-- What decoding the modules of a configuration in config/config.go leaves of the shared default.
use snmp_exporter.Common.{
  ℕ, ◌≤◌, ◌<◌, ◌≡◌, refl, ◌∙◌, ◌≢◌, ◌⊎◌, inl, inr, arith, List, [], ◌∷◌, some, >>=-eq-some, All,
}
use mathlib.Core.Path.{subst}
use snmp_exporter.Common.Int.{ℤ}
use snmp_exporter.Config.WalkParams.{
  WalkParams, Ints, Decoder, set_int, new_int, own_retries, default_walk_params, unmarshal_module,
  unmarshal_modules,
}

abbrev pub Points : WalkParams ℕ → ℕ → Type 0
Points c p = c.retries ≡ some p

-- The decoder writes through the pointer of its target or through new ones, and leaves the target with
-- its pointer, a new one, or nil.
abbrev pub Decodes : Decoder → Type 0
Decodes decode =
    (c d : WalkParams ℕ) (h g : Ints)
    → decode c h ≡ some (d, g)
    → (h.next ≤ g.next)
      × (((p : ℕ) → p < h.next → c.retries ≢ some p → g.value p ≡ h.value p)
          × ((p : ℕ) → Points d p → Points c p ⊎ ((h.next ≤ p) × (p < g.next))))

-- The pointers of the modules lie from an address on, and no two of them are the same.
abbrev pub From : ℕ → WalkParams ℕ → Type 0
From a c = (p : ℕ) → Points c p → a ≤ p

abbrev pub Unshared : WalkParams ℕ → WalkParams ℕ → Type 0
Unshared c d = (p : ℕ) → Points c p → Points d p → ⊥

abbrev pub Owned : ℕ → List (WalkParams ℕ) → Type 0
Owned a [] = Unit
Owned a (c ∷ cs) = From a c × (All (Unshared c) cs × Owned a cs)

-- The module is what its decoder makes of the defaults with a pointer of its own, to a copy of the
-- default count of retries.
abbrev pub Started : ℕ → ℤ → Decoder → WalkParams ℕ → Type 0
Started a count decode c =
    (p : ℕ) × ((h : Ints) × ((g : Ints) × ((a ≤ p)
          × ((h.value p ≡ count)
              × (decode (record default_walk_params { retries = some p }) h ≡ some (c, g))))))

abbrev pub AllStarted : ℕ → ℤ → List Decoder → List (WalkParams ℕ) → Type 0
AllStarted a count [] [] = Unit
AllStarted a count [] (c ∷ cs) = ⊥
AllStarted a count (decode ∷ decoders) [] = ⊥
AllStarted a count (decode ∷ decoders) (c ∷ cs) =
    Started a count decode c × AllStarted a count decoders cs

some-injective {ℓ} : {A : Type ℓ} (a b : A) → some a ≡ some b → a ≡ b
some-injective a b e = cc

abbrev Kept : Ints → Ints → Type 0
Kept h g = (h.next ≤ g.next) × ((p : ℕ) → p < h.next → g.value p ≡ h.value p)

unmarshal_module-Kept :
    (decode : Decoder) (h g : Ints) (c : WalkParams ℕ)
    → Decodes decode
    → unmarshal_module decode h ≡ some (c, g)
    → Kept h g × ((p : ℕ) → Points c p → (h.next ≤ p) × (p < g.next))
unfolding unmarshal_module own_retries default_walk_params new_int set_int
unmarshal_module-Kept decode h g c d e =
    let start = own_retries default_walk_params h in
    let (grows, (kept, points)) = d start.0 c start.1 g e in
    (
      (omega arith, λ p q. kept p (omega arith) (λ r. ground arith) ∙ (ground arith)),
      λ p q. elim (points p q) [ inl r ↦ (ground arith) | inr r ↦ (omega arith, r.1) ],
    )

unmarshal_module-Started :
    (decode : Decoder) (h g : Ints) (c : WalkParams ℕ)
    → unmarshal_module decode h ≡ some (c, g)
    → Started h.next (h.value 0) decode c
unfolding unmarshal_module own_retries default_walk_params new_int set_int
unmarshal_module-Started decode h g c e =
    (h.next, ((new_int (h.value 0) h).1, (g, (omega arith, (ground arith, e)))))

AllStarted-weaken :
    (a b : ℕ) (i j : ℤ) (decoders : List Decoder) (cs : List (WalkParams ℕ))
    → b ≤ a
    → i ≡ j
    → AllStarted a i decoders cs
    → AllStarted b j decoders cs
AllStarted-weaken a b i j [] [] l e s = tt
AllStarted-weaken a b i j [] (c ∷ cs) l e s = absurd s
AllStarted-weaken a b i j (decode ∷ decoders) [] l e s = absurd s
AllStarted-weaken a b i j (decode ∷ decoders) (c ∷ cs) l e ((p, (h, (g, (m, (v, d))))), s) =
    ((p, (h, (g, (omega arith, (v ∙ e, d))))), AllStarted-weaken a b i j decoders cs l e s)

Owned-weaken : (a b : ℕ) (cs : List (WalkParams ℕ)) → b ≤ a → Owned a cs → Owned b cs
Owned-weaken a b [] l o = tt
Owned-weaken a b (c ∷ cs) l (f, (d, o)) =
    (λ p q. omega (arith, f p q), (d, Owned-weaken a b cs l o))

All-Unshared :
    (c : WalkParams ℕ) (a : ℕ) (cs : List (WalkParams ℕ))
    → ((p : ℕ) → Points c p → p < a)
    → Owned a cs
    → All (Unshared c) cs
All-Unshared c a [] l o = tt
All-Unshared c a (d ∷ cs) l (f, (e, o)) =
    (λ p q r. absurd (omega (arith, l p q, f p r)), All-Unshared c a cs l o)

-- A run of the decoding.
abbrev Sound : Ints → List Decoder → List (WalkParams ℕ) × Ints → Type 0
Sound h decoders r = Kept h r.1 × (Owned h.next r.0 × AllStarted h.next (h.value 0) decoders r.0)

-- Where the decoder writes through pointers as it should, the decoding of any number of modules leaves
-- the ints in memory as they are, the default count of retries among them. Each module is decoded over
-- the defaults with a new pointer to a copy of that count, and no two modules that have a count of
-- retries in the end share the pointer to it, or have one that was there before.
pub unmarshal_modules-Owned :
    (decoders : List Decoder) (h g : Ints) (cs : List (WalkParams ℕ))
    → 0 < h.next
    → All Decodes decoders
    → unmarshal_modules decoders h ≡ some (cs, g)
    → ((h.next ≤ g.next) × ((p : ℕ) → p < h.next → g.value p ≡ h.value p))
      × (Owned h.next cs × AllStarted h.next (h.value 0) decoders cs)
unfolding unmarshal_modules
unmarshal_modules-Owned [] h g cs z d e =
    subst (Sound h []) (some-injective _ _ e) ((omega arith, λ p q. refl), (tt, tt))
unmarshal_modules-Owned (decode ∷ decoders) h g cs z (d, ds) e =
    let (first, p, e1) = >>=-eq-some (unmarshal_module decode h) _ e in
    let (rest, q, e2) = >>=-eq-some (unmarshal_modules decoders first.1) _ e1 in
    let ((grows, kept), points) = unmarshal_module-Kept decode h first.1 first.0 d p in
    let ((more, same), (owned, started)) =
      unmarshal_modules-Owned decoders first.1 rest.1 rest.0 (omega arith) ds q in
    subst (Sound h (decode ∷ decoders)) (some-injective _ _ e2) (
      (omega arith, λ b r. same b (omega arith) ∙ kept b r),
      (
        (
          λ b r. (points b r).0,
          (
            All-Unshared first.0 first.1.next rest.0 (λ b r. (points b r).1) owned,
            Owned-weaken first.1.next h.next rest.0 grows owned,
          ),
        ),
        (
          unmarshal_module-Started decode h first.1 first.0 p,
          AllStarted-weaken first.1.next h.next (first.1.value 0) (h.value 0) decoders rest.0 grows
              (kept 0 z) started,
        ),
      ),
    )
