-- ===== src/Generator/Module/Fetched.antt =====
-- What a generated module asks for, of `generateConfigModule` in generator/tree.go.
use mathlib.Core.Option.{some-injective}
use snmp_exporter.Common.{
  ◌≡◌, refl, sym, ap, Bool, true, ◌||◌, List, [], ◌∷◌, ◌++◌, map, any, arith, some, Bool-cases,
  Option-cases, inl, inr,
}
use snmp_exporter.Common.Text.{Bytes, equal_iff, contains, text}
use snmp_exporter.Generator.Minimize.Cover.{covers}
use snmp_exporter.Generator.Store.{Store}
use snmp_exporter.Generator.ModuleConfig.{ModuleConfig}
use snmp_exporter.Generator.Module.{Generated, before_dot, split_gets}
use snmp_exporter.Generator.Result.{ok, >>=-eq-ok, ok-injective}

-- The OIDs to walk, and those to get with a dot at their end.
abbrev pub entries : {F64 : Type 0} → Generated F64 → List Bytes
entries g = g.walk ++ map (λ oid. oid ++ text ".") g.get

-- The same up to subtrees.
abbrev pub fetched : List Bytes → Bytes → Bool
fetched oids t =
    any (covers t) oids || any (covers (t ++ text ".")) oids || any (covers (t ++ text ".0.")) oids

-- An OID from before the OIDs are taken apart is covered by what comes of them.
before_dot-ok : (x : Bytes) {r : Bytes} → before_dot x ≡ some r → r ++ text "." ≡ x
unfolding before_dot text
before_dot-ok [] e = absurd cc
before_dot-ok (c ∷ []) e = ground arith
before_dot-ok (c ∷ d ∷ s) {r} e = elim (Option-cases (before_dot (d ∷ s))) [
  | inl p ↦ absurd (cc (rw p at e))
  | inr (q, p) ↦
      rw (sym (some-injective (c ∷ q) r (rw p at e))) (ap (◌∷◌ c) (before_dot-ok (d ∷ s) p))
]

any-append : (f : Bytes → Bool) (l m : List Bytes) → any f (l ++ m) ≡ (any f l || any f m)
any-append f [] m = refl
any-append f (x ∷ l) m = ground (arith, any-append f l m)

pub split_gets-any :
    (f : Bytes → Bool) (oids : List Bytes) {u : List Bytes × List Bytes}
    → split_gets oids ≡ ok u
    → any f oids ≡ true
    → any f (u.0 ++ map (λ oid. oid ++ text ".") u.1) ≡ true
unfolding split_gets
split_gets-any f [] e h = absurd cc
split_gets-any f ([] ∷ oids) e h = absurd cc
split_gets-any f ((c ∷ s) ∷ oids) {u} e h =
    let (v, p, q) = >>=-eq-ok (split_gets oids) _ e in
    let ih = split_gets-any f oids p in
    elim (Option-cases (before_dot (c ∷ s))) [
      | inl r ↦ rw (sym (ok-injective _ u (rw r at q))) (ground (arith, ih))
      | inr (oid, r) ↦ rw (sym (ok-injective _ u (rw r at q))) (
          ground (
            arith,
            ih,
            before_dot-ok (c ∷ s) r,
            any-append f v.0 (map (λ oid. oid ++ text ".") v.1),
            any-append f v.0 ((oid ++ text ".") ∷ map (λ oid. oid ++ text ".") v.1),
          ))
    ]

pub any-some :
    (f : Bytes → Bool) (l : List Bytes)
    → any f l ≡ true
    → (x : Bytes) × (f x ≡ true) × (contains l x ≡ true)
any-some f [] h = absurd cc
any-some f (x ∷ l) h = elim (Bool-cases (f x)) [
  | inl p ↦ (x, p, ground (arith, equal_iff x x))
  | inr p ↦ let (y, q, r) = any-some f l (rw p at h) in (y, q, ground arith)
]
