-- ===== src/Config/WalkParams.antt =====
-- How a module is walked: `WalkParams`, `DefaultWalkParams` and `(*Module).UnmarshalYAML` of
-- config/config.go. `Retries` is a pointer, so that a field of the default can be shared; the ints that
-- such pointers point to are in a store.
pub mod Decoded
use snmp_exporter.Common.{
  ℕ, suc, ◌+◌, ◌<◌, ◌≡◌, Bool, true, false, ◌==◌, if◌then◌else◌, List, [], ◌∷◌, Option, some, none,
  ◌>>=◌,
}
use snmp_exporter.Common.Int.{ℤ, pos}

-- The pointer is `none` for nil, and else whatever stands for its target. `timeout` is in nanoseconds.
pub record WalkParams (P : Type 0) : Type 0 where
  pub max_repetitions : ℕ
  pub retries : Option P
  pub timeout : ℕ
  pub use_unconnected_udp_socket : Bool
  pub allow_non_increasing_oids : Bool

-- The ints in memory, and the next free address. `defaultRetries` is at address 0.
pub record Ints : Type 0 where
  pub next : ℕ
  pub value : ℕ → ℤ

unfoldable pub set_int : ℕ → ℤ → Ints → Ints
set_int p i h = record h { value = λ q. if q == p then i else h.value q }

-- `&i` of a new variable.
unfoldable pub new_int : ℤ → Ints → ℕ × Ints
unfolding set_int
new_int i h = (h.next, set_int h.next i (record h { next = suc h.next }))

unfoldable pub start_ints : Ints
start_ints = record { next = 1; value = λ p. pos 3 }

unfoldable pub default_walk_params : WalkParams ℕ
default_walk_params = record {
  max_repetitions = 25;
  retries = some 0;
  timeout = 5000000000;
  use_unconnected_udp_socket = false;
  allow_non_increasing_oids = false;
}

-- `retries := *c.WalkParams.Retries` and `c.WalkParams.Retries = &retries`.
unfoldable pub own_retries : WalkParams ℕ → Ints → WalkParams ℕ × Ints
unfolding new_int
own_retries c h = elim c.retries [
  | none ↦ (c, h)
  | some p ↦ (record c { retries = some (new_int (h.value p) h).0 }, (new_int (h.value p) h).1)
]

-- The YAML decoder on the walk parameters in memory, for one module of a text; `none` is its error.
abbrev pub Decoder : Type 0
Decoder = WalkParams ℕ → Ints → Option (WalkParams ℕ × Ints)

-- `(*Module).UnmarshalYAML` on the walk parameters.
unfoldable pub unmarshal_module : Decoder → Ints → Option (WalkParams ℕ × Ints)
unfolding own_retries default_walk_params
unmarshal_module decode h = let start = own_retries default_walk_params h in decode start.0 start.1

-- The modules of a configuration one after the other.
unfoldable pub unmarshal_modules : List Decoder → Ints → Option (List (WalkParams ℕ) × Ints)
unfolding unmarshal_module
unmarshal_modules [] h = some ([], h)
unmarshal_modules (decode ∷ decoders) h = do
  first ← unmarshal_module decode h
  rest ← unmarshal_modules decoders first.1
  some (first.0 ∷ rest.0, rest.1)
