-- ===== src/Tests/Options.antt =====
-- The theorems on the options of a client and on the walk parameters at modules.
use snmp_exporter.Common.{
  ℕ, Bool-cases, ==_iff, ◌≤◌, ◌<◌, Option-cases, ◌≡◌, refl, sym, ap, ◌∙◌, ◌≢◌, ◌⊎◌, inl, inr, true,
  false, ◌==◌, List, [], ◌∷◌, some, none, arith,
}
use mathlib.Core.Path.{subst}
use snmp_exporter.Common.Int.{ℤ, pos}
use snmp_exporter.Common.Text.{text, equal}
use snmp_exporter.Common.Map.{lookup}
use snmp_exporter.Config.Auth.{GoSnmp, version_2c, no_auth_no_priv}
use snmp_exporter.Config.WalkParams.{
  WalkParams, Ints, Decoder, set_int, new_int, start_ints, default_walk_params, own_retries,
  unmarshal_module, unmarshal_modules,
}
use snmp_exporter.Config.WalkParams.Decoded.{
  Points, Decodes, Owned, AllStarted, unmarshal_modules-Owned,
}
use snmp_exporter.Collector.Options.{
  ClientOptions, module_options, set_walk_options, walk_options, on_sent, on_recv, on_retry,
  counts_of, count_callback, no_counts, decode_string, hex_digit,
}
use snmp_exporter.Collector.Options.Carried.{Carried, skips_check, module_options-Carried}

abbrev pub session : GoSnmp
session = record {
  version = version_2c;
  community = [];
  context_name = [];
  user_security = true;
  msg_flags = no_auth_no_priv;
  security_parameters = none;
}

abbrev pub client : ClientOptions
client = record {
  retries = pos 0;
  timeout = 0;
  max_repetitions = 0;
  use_unconnected_udp_socket = false;
  app_opts = [];
  context_engine_id = [];
  session = session;
}

abbrev pub careful : WalkParams ℤ
careful = record {
  max_repetitions = 25;
  retries = some (pos 3);
  timeout = 5;
  use_unconnected_udp_socket = false;
  allow_non_increasing_oids = false;
}

abbrev pub careless : WalkParams ℤ
careless = record careful { allow_non_increasing_oids = true }

module_options-Carried_example :
    Carried
      (skips_check client)
      (careless ∷ careful ∷ [])
      (module_options (careless ∷ careful ∷ []) client)
module_options-Carried_example = module_options-Carried (careless ∷ careful ∷ []) client

-- The second module does not turn the check off, and is scraped without it.
carried_run :
    module_options (careless ∷ careful ∷ []) client
    ≡ some (
        walk_options careless (pos 3) client
        ∷ walk_options careful (pos 3) (walk_options careless (pos 3) client)
        ∷ [])
unfolding module_options set_walk_options
carried_run = refl

skipped_run :
    skips_check (walk_options careful (pos 3) (walk_options careless (pos 3) client)) ≡ true
unfolding skips_check walk_options lookup equal text
skipped_run = refl

counts_run :
    counts_of (on_sent ∷ on_retry ∷ on_sent ∷ on_recv ∷ []) no_counts
    ≡ record { packets = 2; retries = 1 }
unfolding counts_of count_callback
counts_run = refl

engine_id_run : decode_string (text "80fF") ≡ some (128 ∷ 255 ∷ [])
unfolding decode_string hex_digit text
engine_id_run = refl

-- A text that sets the count_callback of retries: the decoder writes it through the pointer.
unfoldable five_retries : Decoder
unfolding set_int
five_retries c h = elim c.retries [ none ↦ some (c, h) | some p ↦ some (c, set_int p (pos 5) h) ]

-- One that leaves everything as it is.
unfoldable nothing_set : Decoder
nothing_set c h = some (c, h)

some-injective : {A : Type 0} (a b : A) → some a ≡ some b → a ≡ b
some-injective a b e = cc

abbrev decoded : List (WalkParams ℕ) × Ints
decoded = (
  record default_walk_params { retries = some 1 }
      ∷ record default_walk_params { retries = some 2 }
      ∷ [],
  (new_int (pos 3) (set_int 1 (pos 5) (new_int (pos 3) start_ints).1)).1,
)

decoded_run : unmarshal_modules (five_retries ∷ nothing_set ∷ []) start_ints ≡ some decoded
unfolding unmarshal_modules unmarshal_module own_retries default_walk_params five_retries
    nothing_set start_ints new_int set_int
decoded_run = refl

-- What a decoder may make of its target.
abbrev Result : WalkParams ℕ → Ints → WalkParams ℕ × Ints → Type 0
Result c h r =
    (h.next ≤ r.1.next)
    × (((p : ℕ) → p < h.next → c.retries ≢ some p → r.1.value p ≡ h.value p)
        × ((p : ℕ) → Points r.0 p → Points c p ⊎ ((h.next ≤ p) × (p < r.1.next))))

nothing_set-Decodes : Decodes nothing_set
unfolding nothing_set
nothing_set-Decodes c d h g e =
    subst (Result c h) (some-injective (c, h) (d, g) e) (omega arith, (λ p q r. refl, λ p q. inl q))

five_retries-Decodes : Decodes five_retries
unfolding five_retries set_int
five_retries-Decodes c d h g e = elim (Option-cases c.retries) [
  | inl q ↦
      subst (Result c h) (some-injective (c, h) (d, g) (rw (q, five_retries) at e))
        (omega arith, (λ p b r. refl, λ p b. inl b))
  | inr (a, q) ↦
      subst (Result c h)
        (some-injective (c, set_int a (pos 5) h) (d, g) (rw (q, five_retries) at e))
        (
          omega arith,
          (
            λ p b r. elim (Bool-cases (p == a)) [
              | inl same ↦ absurd (r (q ∙ ap some (sym ((==_iff p a).0 same))))
              | inr other ↦ rw (other, set_int) refl
            ],
            λ p b. inl b,
          ),
        )
]

unmarshal_modules-Owned_example :
    ((start_ints.next ≤ decoded.1.next)
      × ((p : ℕ) → p < start_ints.next → decoded.1.value p ≡ start_ints.value p))
    × (Owned start_ints.next decoded.0
        × AllStarted start_ints.next
            (start_ints.value 0)
            (five_retries ∷ nothing_set ∷ [])
            decoded.0)
unmarshal_modules-Owned_example =
    unmarshal_modules-Owned (five_retries ∷ nothing_set ∷ []) start_ints decoded.1 decoded.0
      (unfold start_ints in omega arith) (five_retries-Decodes, (nothing_set-Decodes, tt))
      decoded_run
