-- ===== src/Collector/Options.antt =====
-- The options of a worker's client in collector/collector.go: what `Collect` sets before it connects,
-- what `collect` sets for each module, and the counts that its callbacks keep. `context.Context` and the
-- times are left out.
pub mod Carried
use snmp_exporter.Common.{
  ℕ, suc, ◌+◌, ◌*◌, ◌-◌, ◌%◌, ◌^◌, Bool, true, false, not, ◌&&◌, ◌||◌, List, [], ◌∷◌, leb, any,
  if◌then◌else◌, Option, some, none, ◌>>=◌,
}
use snmp_exporter.Common.Int.{ℤ, pos}
use snmp_exporter.Common.Text.{Bytes, text, equal}
use snmp_exporter.Collector.Index.{int_eq}
use snmp_exporter.Config.Auth.{Auth, GoSnmp, configure_snmp}
use snmp_exporter.Config.WalkParams.{WalkParams}

-- The fields of `gosnmp.GoSNMP` that are set. `app_opts` is the map `AppOpts`.
pub record ClientOptions : Type 0 where
  pub retries : ℤ
  pub timeout : ℕ
  pub max_repetitions : ℕ
  pub use_unconnected_udp_socket : Bool
  pub app_opts : List (Bytes × Bool)
  pub context_engine_id : Bytes
  pub session : GoSnmp

-- The second function of `collect`'s `SetOptions`; `none` is the panic at a nil pointer.
unfoldable pub walk_options : WalkParams ℤ → ℤ → ClientOptions → ClientOptions
walk_options p retries g = record g {
  retries = retries;
  timeout = p.timeout;
  max_repetitions = p.max_repetitions;
  use_unconnected_udp_socket = p.use_unconnected_udp_socket;
  app_opts = if p.allow_non_increasing_oids then (text "c", true) ∷ [] else g.app_opts;
}

unfoldable pub set_walk_options : WalkParams ℤ → ClientOptions → Option ClientOptions
unfolding walk_options
set_walk_options p g = do retries ← p.retries; some (walk_options p retries g)

-- The modules that one worker receives, each scraped with the options as they are by then.
unfoldable pub module_options : List (WalkParams ℤ) → ClientOptions → Option (List ClientOptions)
unfolding set_walk_options
module_options [] g = some []
module_options (p ∷ modules) g = do
  h ← set_walk_options p g
  rest ← module_options modules h
  some (h ∷ rest)

-- `useUnconnectedUDPSocket` of a worker.
abbrev pub any_unconnected : List (WalkParams ℤ) → Bool
any_unconnected modules = any (λ m. m.use_unconnected_udp_socket) modules

unfoldable pub hex_digit : ℕ → Option ℕ
hex_digit c =
    if leb b'0' c && leb c b'9'
    then some (c - b'0')
    else if leb b'a' c && leb c b'f'
    then some (c - b'a' + 10)
    else if leb b'A' c && leb c b'F'
    then some (c - b'A' + 10)
    else none

-- `hex.DecodeString`; `none` is its error.
unfoldable pub decode_string : Bytes → Option Bytes
unfolding hex_digit
decode_string [] = some []
decode_string (c ∷ []) = none
decode_string (c ∷ d ∷ s) = do
  high ← hex_digit c
  low ← hex_digit d
  rest ← decode_string s
  some ((high * 16 + low) ∷ rest)

-- The engine ID is set for SNMPv3 only; `none` where a worker gives up.
unfoldable pub set_engine_id : Bytes → ℤ → ClientOptions → Option ClientOptions
unfolding decode_string
set_engine_id snmp_engine_id version g =
    if not (equal snmp_engine_id []) && int_eq version (pos 3)
    then (do id ← decode_string snmp_engine_id; some (record g { context_engine_id = id }))
    else some g

-- The options of a worker's client when it connects.
unfoldable pub worker_options :
    Auth → Bytes → Bytes → List (WalkParams ℤ) → ClientOptions → Option ClientOptions
unfolding set_engine_id configure_snmp
worker_options auth snmp_context snmp_engine_id modules g = do
  h ← set_engine_id snmp_engine_id auth.version g
  some (record h {
    use_unconnected_udp_socket = any_unconnected modules;
    session = configure_snmp auth h.session snmp_context;
  })

-- What the client calls back while a module is scraped.
pub data Callback : Type 0 where
  on_sent on_recv on_retry : Callback

-- `packets` and `retries`, two uint64; the counters of the exporter grow with them.
pub record Counts : Type 0 where
  pub packets : ℕ
  pub retries : ℕ

unfoldable pub count_callback : Callback → Counts → Counts
count_callback on_sent c = record c { packets = (c.packets + 1) % 2 ^ 64 }
count_callback on_recv c = c
count_callback on_retry c = record c { retries = (c.retries + 1) % 2 ^ 64 }

unfoldable pub counts_of : List Callback → Counts → Counts
unfolding count_callback
counts_of [] c = c
counts_of (k ∷ callbacks) c = counts_of callbacks (count_callback k c)

abbrev pub no_counts : Counts
no_counts = record { packets = 0; retries = 0 }
