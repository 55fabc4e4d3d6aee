-- ===== src/Collector/Oid/Split.antt =====
-- What `splitOid` cuts off and what it leaves.
use snmp_exporter.Common.{
  ℕ, zero, suc, ◌+◌, ◌-◌, ◌≡◌, refl, ap, ◌∙◌, [], ◌∷◌, ◌++◌, arith, take, drop, replicate, length,
}
use snmp_exporter.Common.Int.{ℤ, pos}
use snmp_exporter.Collector.Oid.{Oid, split_oid}

take_nil : (n : ℕ) → take {A = ℤ} n [] ≡ []
take_nil zero = refl
take_nil (suc n) = refl

-- The head is the first `count` components with zeros behind them up to `count`, and the tail is
-- what stands after the first `count`, whatever the length of the list.
pub split_oid_lem :
    (oid : Oid) (count : ℕ)
    → ((split_oid oid count).0 ≡ take count oid ++ replicate (count - length oid) (pos 0))
      × ((split_oid oid count).1 ≡ drop count oid)
unfolding split_oid
split_oid_lem oid zero = let e : 0 - length oid ≡ 0 = omega arith in (rw e refl, refl)
split_oid_lem [] (suc count) =
    let ih = split_oid_lem [] count in
    let e : suc count - 0 ≡ suc (count - 0) = omega arith in
    (rw e (cc (ih.0, take_nil count)), refl)
split_oid_lem (o ∷ oid) (suc count) =
    let ih = split_oid_lem oid count in
    let e : suc count - suc (length oid) ≡ count - length oid = omega arith in
    (rw e (ap (◌∷◌ o) ih.0), ih.1)

pub length-split_oid : (oid : Oid) (count : ℕ) → length (split_oid oid count).0 ≡ count
unfolding split_oid
length-split_oid oid zero = refl
length-split_oid [] (suc count) = ap suc (length-split_oid [] count)
length-split_oid (o ∷ oid) (suc count) = ap suc (length-split_oid oid count)

pub split_oid_nil : (n : ℕ) → (split_oid [] n).1 ≡ []
unfolding split_oid
split_oid_nil zero = refl
split_oid_nil (suc n) = refl

-- Cutting twice is cutting once.
pub split_oid-add :
    (oid : Oid) (m n : ℕ)
    → (split_oid oid (m + n) ≡ (
      (split_oid oid m).0 ++ (split_oid (split_oid oid m).1 n).0,
      (split_oid (split_oid oid m).1 n).1,
    ))
unfolding split_oid
split_oid-add oid zero n = let e : 0 + n ≡ n = omega arith in rw e refl
split_oid-add [] (suc m) n =
    let e : suc m + n ≡ suc (m + n) = omega arith in
    rw e
      (ap (λ p. (pos 0 ∷ p.0, [])) (split_oid-add [] m n) ∙ rw (split_oid_nil m, split_oid_nil n))
split_oid-add (o ∷ oid) (suc m) n =
    let e : suc m + n ≡ suc (m + n) = omega arith in
    rw e (ap (λ p. (o ∷ p.0, p.1)) (split_oid-add oid m n))
