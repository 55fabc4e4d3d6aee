-- ===== src/Exporter/Request.antt =====
-- A request for a scrape: `parseModules`, `handler` and `SafeConfig.ReloadConfig` of main.go, up to
-- the collector that `handler` makes. Error texts, counters and log lines are left out.
pub mod Modules
pub mod Served
use snmp_exporter.Common.{
  ℕ, ◌≡◌, Bool, true, false, not, ◌||◌, List, [], ◌∷◌, ◌++◌, length, ◌==◌, ltb, if◌then◌else◌,
  Option, some, none,
}
use snmp_exporter.Common.Text.{Bytes, text, equal, split}
use snmp_exporter.Common.Map.{lookup, insert, has_key}

-- `url.Values`.
abbrev pub Values : Type 0
Values = List (Bytes × List Bytes)

-- `query[key]`, and `query.Get(key)`.
unfoldable pub values : Values → Bytes → List Bytes
values query key = elim (lookup key query) [ none ↦ [] | some vs ↦ vs ]

unfoldable pub first_value : List Bytes → Bytes
first_value [] = []
first_value (v ∷ vs) = v

unfoldable pub get : Values → Bytes → Bytes
unfolding first_value
get query key = first_value (values query key)

-- The map `uniqueM` and the list `modules`.
pub record Unique : Type 0 where
  pub unique : List (Bytes × Bool)
  pub modules : List Bytes

unfoldable pub add_module : Bytes → Unique → Unique
add_module m u =
    if equal m []
    then u
    else if has_key u.unique m
    then u
    else record { unique = insert m true u.unique; modules = u.modules ++ (m ∷ []) }

unfoldable pub add_modules : List Bytes → Unique → Unique
add_modules [] u = u
add_modules (m ∷ ms) u = add_modules ms (add_module m u)

unfoldable pub add_queries : List Bytes → Unique → Unique
add_queries [] u = u
add_queries (qm ∷ qms) u = add_queries qms (add_modules (split qm b',') u)

unfoldable pub or_if_mib : List Bytes → List Bytes
or_if_mib [] = text "if_mib" ∷ []
or_if_mib (q ∷ qs) = q ∷ qs

unfoldable pub at_least_one : List Bytes → Option (List Bytes)
at_least_one [] = none
at_least_one (m ∷ ms) = some (m ∷ ms)

-- `parseModules`; `none` is its error.
unfoldable pub parse_modules : Values → Option (List Bytes)
unfolding at_least_one
parse_modules query =
    let start : Unique = record { unique = []; modules = [] } in
    let u = add_queries (or_if_mib (values query (text "module"))) start in at_least_one u.modules

-- Why `handler` answers with the status 400.
pub data BadRequest : Type 0 where
  target_not_once auth_not_once snmp_context_not_once snmp_engineid_not_once no_module : BadRequest
  unknown_auth : Bytes → BadRequest
  unknown_module : Bytes → BadRequest

-- What `handler` makes the collector of.
pub record Job (A M : Type 0) : Type 0 where
  pub debug : Bool
  pub target : Bytes
  pub auth_name : Bytes
  pub snmp_context : Bytes
  pub snmp_engine_id : Bytes
  pub auth : A
  pub modules : List (Bytes × M)

pub data Response (A M : Type 0) : Type 0 where
  bad_request : BadRequest → Response A M
  serve : Job A M → Response A M

-- `config.Config`.
pub record Config (A M : Type 0) : Type 0 where
  pub auths : List (Bytes × A)
  pub modules : List (Bytes × M)

-- The loop over the modules of a request, with those found so far.
pub data Named (M : Type 0) : Type 0 where
  missing : Bytes → Named M
  found : List (Bytes × M) → Named M

unfoldable pub or_public_v2 : Bytes → Bytes
or_public_v2 name = if equal name [] then text "public_v2" else name

unfoldable pub is_repeated : Values → Bytes → Bool
is_repeated query key = ltb 1 (length (values query key))

unfoldable pub find_modules :
    {M : Type 0} → List (Bytes × M) → List Bytes → List (Bytes × M) → Named M
find_modules modules [] nmodules = found nmodules
find_modules modules (m ∷ ms) nmodules = elim (lookup m modules) [
  | none ↦ missing m
  | some module_ ↦ find_modules modules ms (nmodules ++ ((m, module_) ∷ []))
]

module _ {A M : Type 0} where
  unfoldable pub respond : Bool → Values → A → Named M → Response A M
  respond debug query auth (missing m) = bad_request (unknown_module m)
  respond debug query auth (found nmodules) = serve (record {
    debug = debug || equal (get query (text "snmp_debug_packets")) (text "true");
    target = get query (text "target");
    auth_name = or_public_v2 (get query (text "auth"));
    snmp_context = get query (text "snmp_context");
    snmp_engine_id = get query (text "snmp_engineid");
    auth = auth;
    modules = nmodules;
  })

  -- The part of `handler` that reads the configuration.
  unfoldable pub configured : Bool → Config A M → Values → List Bytes → Option A → Response A M
  configured debug config query modules none =
      bad_request (unknown_auth (or_public_v2 (get query (text "auth"))))
  configured debug config query modules (some auth) =
      respond debug query auth (find_modules config.modules modules [])

  unfoldable pub with_modules : Bool → Config A M → Values → Option (List Bytes) → Response A M
  with_modules debug config query none = bad_request no_module
  with_modules debug config query (some modules) =
      configured debug config query modules
        (lookup (or_public_v2 (get query (text "auth"))) config.auths)

  -- `handler`.
  unfoldable pub handler : Bool → Config A M → Values → Response A M
  handler debug config query =
      if not (length (values query (text "target")) == 1) || equal (get query (text "target")) []
      then bad_request target_not_once
      else if is_repeated query (text "auth")
      then bad_request auth_not_once
      else if is_repeated query (text "snmp_context")
      then bad_request snmp_context_not_once
      else if is_repeated query (text "snmp_engineid")
      then bad_request snmp_engineid_not_once
      else with_modules debug config query (parse_modules query)

  -- `ReloadConfig`: a configuration that does not load leaves the current one in place.
  unfoldable pub reload_config : Option (Config A M) → Config A M → Config A M
  reload_config none current = current
  reload_config (some conf) current = conf
