-- ===== src/Generator/Result.antt =====
-- How the generation of a module in generator/tree.go ends: with a result, one of its errors, or a
-- panic at the bounds of a slice.
use snmp_exporter.Common.{◌≡◌, refl}
use snmp_exporter.Common.Text.{Bytes}

pub data ConfigError : Type 0 where
  invalid_oid cannot_find_oid unknown_index : Bytes → ConfigError
  unknown_index_type : Bytes → Bytes → ConfigError

pub data Result {ℓ} (A : Type ℓ) : Type ℓ where
  ok : A → Result A
  failed : ConfigError → Result A
  panic : Result A

infixl 5 ◌>>=◌
abbrev pub ◌>>=◌ {ℓ κ} : {A : Type ℓ} {B : Type κ} → Result A → (A → Result B) → Result B
ok a >>= f = f a
failed e >>= f = failed e
panic >>= f = panic

-- A chain that ends with a value went through its first step.
pub >>=-eq-ok {ℓ κ} :
    {A : Type ℓ} {B : Type κ} (first : Result A) (next : A → Result B) {b : B}
    → (first >>= next) ≡ ok b
    → (a : A) × (first ≡ ok a) × (next a ≡ ok b)
>>=-eq-ok (ok a) next e = (a, refl, e)
>>=-eq-ok (failed x) next e = cc
>>=-eq-ok panic next e = cc

pub ok-injective {ℓ} : {A : Type ℓ} (a b : A) → ok a ≡ ok b → a ≡ b
ok-injective a b e = cc
