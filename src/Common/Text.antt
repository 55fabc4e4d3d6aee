-- ===== src/Common/Text.antt =====
-- Go strings and byte slices: lists of bytes, and what the code uses of `strings` and `strconv`.
use Prim.Native.Char.{code}
use Prim.Native.String.{String}
use Prim.Native.Nat.{ℕ}
use snmp_exporter.Common.Tests.{if◌then◌else◌, ◌==◌}
use mathlib.Core.Path.{◌≡◌, refl, sym, ap}
use mathlib.Core.Logic.{◌≢◌, ◌↔◌}
use mathlib.Core.Bool.{Bool, true, false, ◌&&◌}
use mathlib.Core.List.{List, [], ◌∷◌, ◌++◌, append_assoc, append-nil}
use native.Mathlib.Omega.{arith}
use snmp_exporter.Common.Lists.{any}

abbrev pub Bytes : Type 0
Bytes = List ℕ

-- The bytes of an ASCII literal.
unfoldable pub text : String → Bytes
text String.[] = []
text (String.◌∷◌ c s) = code c ∷ text s

-- `a == b` on strings.
unfoldable pub equal : Bytes → Bytes → Bool
equal [] [] = true
equal [] (d ∷ t) = false
equal (c ∷ s) [] = false
equal (c ∷ s) (d ∷ t) = c == d && equal s t

abbrev pub contains : List Bytes → Bytes → Bool
contains l s = any (equal s) l

pub equal_iff : (s t : Bytes) → (equal s t ≡ true) ↔ (s ≡ t)
unfolding equal
equal_iff [] [] = ground arith
equal_iff [] (d ∷ t) = ground arith
equal_iff (c ∷ s) [] = ground arith
equal_iff (c ∷ s) (d ∷ t) = ground (arith, equal_iff s t)

pub equal_refl : (a : Bytes) → equal a a ≡ true
equal_refl a = (equal_iff a a).1 refl

-- `strings.HasPrefix(s, prefix)`.
unfoldable pub has_prefix : Bytes → Bytes → Bool
has_prefix s [] = true
has_prefix [] (p ∷ ps) = false
has_prefix (c ∷ s) (p ∷ ps) = c == p && has_prefix s ps

pub has_prefix-append : (p s : Bytes) → has_prefix (p ++ s) p ≡ true
unfolding has_prefix
has_prefix-append [] s = refl
has_prefix-append (c ∷ p) s = ground (arith, has_prefix-append p s)

pub has_prefix_sound : (s p : Bytes) → has_prefix s p ≡ true → (r : Bytes) × (s ≡ p ++ r)
unfolding has_prefix
has_prefix_sound s [] h = (s, refl)
has_prefix_sound [] (p ∷ ps) h = cc
has_prefix_sound (c ∷ s) (p ∷ ps) h =
    let (r, e) = has_prefix_sound s ps (ground arith) in (r, ground (arith, e))

-- `strings.Split(s, sep)` for a separator of one byte: always at least one part.
unfoldable pub split_onto : ℕ → Bytes → Bytes → List Bytes
split_onto sep cur [] = cur ∷ []
split_onto sep cur (c ∷ s) =
    let next = split_onto sep (cur ++ c ∷ []) s in
    let cut = cur ∷ split_onto sep [] s in if c == sep then cut else next

unfoldable pub split : Bytes → ℕ → List Bytes
unfolding split_onto
split s sep = split_onto sep [] s

-- `strings.Join(parts, sep)` for a separator of one byte.
unfoldable pub join : List Bytes → ℕ → Bytes
join [] sep = []
join (p ∷ []) sep = p
join (p ∷ q ∷ ps) sep = p ++ (sep ∷ join (q ∷ ps) sep)

-- No byte of the text is `b`.
abbrev pub Lacks : ℕ → Bytes → Type 0
Lacks b [] = Unit
Lacks b (c ∷ s) = (c ≢ b) × Lacks b s

pub split_onto-Lacks :
    (sep : ℕ) (cur p : Bytes) → Lacks sep p → split_onto sep cur p ≡ (cur ++ p) ∷ []
unfolding split_onto
split_onto-Lacks sep cur [] h = ap (λ z. z ∷ []) (sym (append-nil cur))
split_onto-Lacks sep cur (c ∷ p) (n, h) =
    ground (arith, split_onto-Lacks sep (cur ++ c ∷ []) p h, append_assoc cur (c ∷ []) p)

pub split_onto-append :
    (sep : ℕ) (cur p s : Bytes)
    → Lacks sep p
    → split_onto sep cur (p ++ sep ∷ s) ≡ (cur ++ p) ∷ split_onto sep [] s
unfolding split_onto
split_onto-append sep cur [] s h = ground (arith, append-nil cur)
split_onto-append sep cur (c ∷ p) s (n, h) =
    ground (arith, split_onto-append sep (cur ++ c ∷ []) p s h, append_assoc cur (c ∷ []) p)
