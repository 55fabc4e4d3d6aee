-- ===== src/Common/Map.antt =====
-- Go maps with string keys, as association lists in the order in which their keys came.
use snmp_exporter.Common.{
  ◌≡◌, refl, Bool, false, List, [], ◌∷◌, Option, some, none, if◌then◌else◌, arith, ◌||◌, any, ◌++◌,
}
use snmp_exporter.Common.Text.{Bytes, equal, equal_iff}

module _ {ℓ} {V : Type ℓ} where
  unfoldable pub lookup : Bytes → List (Bytes × V) → Option V
  lookup k [] = none
  lookup k ((j, v) ∷ m) = if equal j k then some v else lookup k m

  unfoldable pub insert : Bytes → V → List (Bytes × V) → List (Bytes × V)
  insert k v [] = (k, v) ∷ []
  insert k v ((j, w) ∷ m) = if equal j k then (j, v) ∷ m else (j, w) ∷ insert k v m

  unfoldable pub delete : Bytes → List (Bytes × V) → List (Bytes × V)
  delete k [] = []
  delete k ((j, w) ∷ m) = if equal j k then delete k m else (j, w) ∷ delete k m

  abbrev pub has_key : List (Bytes × V) → Bytes → Bool
  has_key m k = any (λ e. equal e.0 k) m

  pub lookup-insert :
      (k j : Bytes) (v : V) (m : List (Bytes × V))
      → lookup j (insert k v m) ≡ (if equal k j then some v else lookup j m)
  unfolding lookup insert
  lookup-insert k j v [] = refl
  lookup-insert k j v ((i, w) ∷ m) =
      ground (arith, equal_iff k j, equal_iff i k, equal_iff i j, lookup-insert k j v m)

  pub lookup-delete :
      (k j : Bytes) (m : List (Bytes × V))
      → lookup j (delete k m) ≡ (if equal k j then none else lookup j m)
  unfolding lookup delete
  lookup-delete k j [] = ground arith
  lookup-delete k j ((i, w) ∷ m) =
      ground (arith, equal_iff k j, equal_iff i k, equal_iff i j, lookup-delete k j m)

  pub has_key-insert :
      (k j : Bytes) (v : V) (m : List (Bytes × V))
      → has_key (insert k v m) j ≡ (equal k j || has_key m j)
  unfolding insert
  has_key-insert k j v [] = ground arith
  has_key-insert k j v ((i, w) ∷ m) =
      ground (arith, equal_iff k j, equal_iff i k, equal_iff i j, has_key-insert k j v m)

  pub has_key-delete :
      (k j : Bytes) (m : List (Bytes × V)) → has_key m j ≡ false → has_key (delete k m) j ≡ false
  unfolding delete
  has_key-delete k j [] p = p
  has_key-delete k j ((i, w) ∷ m) p = ground (arith, has_key-delete k j m)

  pub has_key-append :
      (j k : Bytes) (v : V) (m : List (Bytes × V))
      → has_key (m ++ ((k, v) ∷ [])) j ≡ (equal k j || has_key m j)
  has_key-append j k v [] = ground arith
  has_key-append j k v ((i, w) ∷ m) = ground (arith, has_key-append j k v m)

  -- No key is there twice.
  unfoldable pub Distinct : List (Bytes × V) → Type 0
  Distinct [] = Unit
  Distinct ((k, v) ∷ m) = (has_key m k ≡ false) × Distinct m

  pub insert-Distinct :
      (k : Bytes) (v : V) (m : List (Bytes × V)) → Distinct m → Distinct (insert k v m)
  unfolding Distinct insert
  insert-Distinct k v [] d = (refl, tt)
  insert-Distinct k v ((i, w) ∷ m) (p, d) =
      ground (arith, equal_iff i k, equal_iff k i, has_key-insert k i v m, insert-Distinct k v m d)

  pub delete-Distinct : (k : Bytes) (m : List (Bytes × V)) → Distinct m → Distinct (delete k m)
  unfolding Distinct delete
  delete-Distinct k [] d = d
  delete-Distinct k ((i, w) ∷ m) (p, d) =
      ground (arith, has_key-delete k i m p, delete-Distinct k m d)

  pub append-Distinct :
      (k : Bytes) (v : V) (m : List (Bytes × V))
      → has_key m k ≡ false
      → Distinct m
      → Distinct (m ++ ((k, v) ∷ []))
  unfolding Distinct
  append-Distinct k v [] p d = (refl, tt)
  append-Distinct k v ((i, w) ∷ m) p (q, d) =
      ground (arith, equal_iff i k, equal_iff k i, has_key-append i k v m, append-Distinct k v m)
