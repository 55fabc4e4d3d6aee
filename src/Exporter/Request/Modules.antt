-- ===== src/Exporter/Request/Modules.antt =====
-- The modules that a request names.
use snmp_exporter.Common.{
  ◌≡◌, refl, sym, ap, ◌∙◌, Bool, true, false, not, ◌&&◌, ◌||◌, List, [], ◌∷◌, ◌++◌, any, arith,
  some, Bool-cases, inl, inr, if_ind,
}
use mathlib.Core.Path.{subst}
use mathlib.Core.Option.{some-injective}
use snmp_exporter.Common.Text.{Bytes, text, equal, equal_iff, split, contains}
use snmp_exporter.Common.Map.{has_key, has_key-insert}
use snmp_exporter.Exporter.Request.{
  Values, values, Unique, add_module, add_modules, add_queries, or_if_mib, at_least_one,
  parse_modules,
}

-- No name is there twice.
unfoldable pub DistinctNames : List Bytes → Type 0
DistinctNames [] = Unit
DistinctNames (m ∷ ms) = (contains ms m ≡ false) × DistinctNames ms

contains-append :
    (l : List Bytes) (m x : Bytes) → contains (l ++ (m ∷ [])) x ≡ (contains l x || equal x m)
contains-append [] m x = ground arith
contains-append (y ∷ l) m x = ground (arith, contains-append l m x)

append-DistinctNames :
    (l : List Bytes) (m : Bytes)
    → contains l m ≡ false
    → DistinctNames l
    → DistinctNames (l ++ (m ∷ []))
unfolding DistinctNames
append-DistinctNames [] m p d = (refl, tt)
append-DistinctNames (y ∷ l) m p (q, d) =
    ground (arith, equal_iff y m, equal_iff m y, contains-append l m y, append-DistinctNames l m)

-- The map has the names of the list, each of which is there once.
record Tracks (u : Unique) : Type 0 where
  same : (x : Bytes) → has_key u.unique x ≡ contains u.modules x
  distinct : DistinctNames u.modules

add_module-Tracks : (m : Bytes) (u : Unique) → Tracks u → Tracks (add_module m u)
add_module-Tracks m u t =
    unfold add_module in
    if_ind Tracks (equal m []) t (elim (Bool-cases (has_key u.unique m)) [
      | inl old ↦ rw old t
      | inr new ↦ rw new (record {
        same = λ x. ground (
          arith,
          has_key-insert m x true u.unique,
          contains-append u.modules m x,
          t.same x,
          equal_iff m x,
          equal_iff x m,
        );
        distinct = append-DistinctNames u.modules m (sym (t.same m) ∙ new) t.distinct;
      })
    ])

add_module-contains :
    (m : Bytes) (u : Unique) (x : Bytes)
    → Tracks u
    → contains (add_module m u).modules x
      ≡ (contains u.modules x || (equal x m && not (equal x [])))
unfolding add_module
add_module-contains m u x t =
    ground (
      arith,
      contains-append u.modules m x,
      t.same m,
      equal_iff x m,
      equal_iff x [],
      equal_iff m [],
    )

add_modules-Tracks : (ms : List Bytes) (u : Unique) → Tracks u → Tracks (add_modules ms u)
unfolding add_modules
add_modules-Tracks [] u t = t
add_modules-Tracks (m ∷ ms) u t = add_modules-Tracks ms (add_module m u) (add_module-Tracks m u t)

add_modules-contains :
    (ms : List Bytes) (u : Unique) (x : Bytes)
    → Tracks u
    → contains (add_modules ms u).modules x
      ≡ (contains u.modules x || (contains ms x && not (equal x [])))
unfolding add_modules
add_modules-contains [] u x t = ground arith
add_modules-contains (m ∷ ms) u x t = ground (
  arith,
  add_module-contains m u x t,
  add_modules-contains ms (add_module m u) x (add_module-Tracks m u t),
)

add_queries-Tracks : (qms : List Bytes) (u : Unique) → Tracks u → Tracks (add_queries qms u)
unfolding add_queries
add_queries-Tracks [] u t = t
add_queries-Tracks (q ∷ qms) u t = add_queries-Tracks qms _ (add_modules-Tracks (split q b',') u t)

-- Whether a name stands in one of the values, between commas.
abbrev pub is_named : List Bytes → Bytes → Bool
is_named qms x = any (λ q. contains (split q b',') x) qms

add_queries-contains :
    (qms : List Bytes) (u : Unique) (x : Bytes)
    → Tracks u
    → contains (add_queries qms u).modules x
      ≡ (contains u.modules x || (is_named qms x && not (equal x [])))
unfolding add_queries
add_queries-contains [] u x t = ground arith
add_queries-contains (q ∷ qms) u x t = ground (
  arith,
  add_modules-contains (split q b',') u x t,
  add_queries-contains qms (add_modules (split q b',') u) x (add_modules-Tracks (split q b',') u t),
)

abbrev no_modules : Unique
no_modules = record { unique = []; modules = [] }

no_modules-Tracks : Tracks no_modules
unfolding DistinctNames
no_modules-Tracks = record { same = λ x. refl; distinct = tt }

at_least_one-eq-some : (l modules : List Bytes) → at_least_one l ≡ some modules → l ≡ modules
unfolding at_least_one
at_least_one-eq-some [] modules e = cc
at_least_one-eq-some (m ∷ ms) modules e = some-injective (m ∷ ms) modules e

-- The modules of a request have different names, and are the names that are not empty among those
-- between the commas of the values of "module", or of "if_mib" where there is no value.
pub parse_modules-names :
    (query : Values) (modules : List Bytes)
    → parse_modules query ≡ some modules
    → DistinctNames modules
      × ((x : Bytes)
          → contains modules x
            ≡ (is_named (or_if_mib (values query (text "module"))) x && not (equal x [])))
parse_modules-names query modules e =
    let qms = or_if_mib (values query (text "module")) in
    let same : (add_queries qms no_modules).modules ≡ modules =
      at_least_one-eq-some _ modules (unfold parse_modules in e) in
    let t = add_queries-Tracks qms no_modules no_modules-Tracks in
    (
      subst DistinctNames same t.distinct,
      λ x.
          ap (λ l. contains l x) (sym same)
          ∙ add_queries-contains qms no_modules x no_modules-Tracks,
    )
