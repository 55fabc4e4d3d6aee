-- ===== src/Exporter/Request/Served.antt =====
-- What a request that is served has passed.
use snmp_exporter.Common.{◌≤◌, ◌≡◌, Bool, false, ◌||◌, List, [], ◌∷◌, length, some, All, map}
use snmp_exporter.Common.Text.{Bytes, text, equal}
use snmp_exporter.Common.Map.{lookup}
use snmp_exporter.Exporter.Request.{
  Values, values, get, parse_modules, Job, Response, bad_request, serve, Config, Named, missing,
  found,
}

abbrev pub names : {M : Type 0} → List (Bytes × M) → List Bytes
names nmodules = map (λ m. m.0) nmodules

abbrev pub IsOnce : Values → Bytes → Type 0
IsOnce query key = length (values query key) ≤ 1

-- The name of the auth by the values given for it.
abbrev pub IsAuthName : List Bytes → Bytes → Type 0
IsAuthName [] name = name ≡ text "public_v2"
IsAuthName ([] ∷ vs) name = name ≡ text "public_v2"
IsAuthName ((b ∷ v) ∷ vs) name = name ≡ b ∷ v

module _ {A M : Type 0} (config : Config A M) where
  abbrev pub IsModule : Bytes × M → Type 0
  IsModule m = lookup m.0 config.modules ≡ some m.1

  -- What the checks of a query let through.
  record Passed (query : Values) : Type 0 where
    one_target : values query (text "target") ≡ get query (text "target") ∷ []
    target_given : equal (get query (text "target")) [] ≡ false
    auth_once : IsOnce query (text "auth")
    context_once : IsOnce query (text "snmp_context")
    engine_id_once : IsOnce query (text "snmp_engineid")

  -- One target that is not empty; each of the other parameters at most once, as the job has it, with
  -- "public_v2" for an auth that is not given; an auth of the configuration, and the modules that the
  -- request names, in that order, each from the configuration.
  pub record Served (debug : Bool) (query : Values) (job : Job A M) : Type 0 where
    pub one_target : values query (text "target") ≡ job.target ∷ []
    pub target_given : equal job.target [] ≡ false
    pub auth_once : IsOnce query (text "auth")
    pub auth_named : IsAuthName (values query (text "auth")) job.auth_name
    pub context_once : IsOnce query (text "snmp_context")
    pub context_given : job.snmp_context ≡ get query (text "snmp_context")
    pub engine_id_once : IsOnce query (text "snmp_engineid")
    pub engine_id_given : job.snmp_engine_id ≡ get query (text "snmp_engineid")
    pub debug_given :
        job.debug ≡ (debug || equal (get query (text "snmp_debug_packets")) (text "true"))
    pub auth_found : lookup job.auth_name config.auths ≡ some job.auth
    pub modules_named : parse_modules query ≡ some (names job.modules)
    pub modules_found : All IsModule job.modules

  abbrev Finds : List Bytes → Named M → Type 0
  Finds ms (missing m) = Unit
  Finds ms (found nmodules) = (names nmodules ≡ ms) × All IsModule nmodules

  abbrev Outcome : Bool → Values → Response A M → Type 0
  Outcome debug query (bad_request b) = Unit
  Outcome debug query (serve job) = Served debug query job
