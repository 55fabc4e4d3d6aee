-- ===== src/Exporter/Server/Snapshot.antt =====
-- A request for a scrape in main.go is answered from one configuration.
use snmp_exporter.Common.{ℕ, ◌≡◌, Bool, ◌⊎◌}
use snmp_exporter.Common.Text.{text}
use snmp_exporter.Common.Map.{lookup}
use snmp_exporter.Exporter.Request.{
  Values, get, Response, bad_request, Config, or_public_v2, find_modules, respond, configured,
  handler,
}
use snmp_exporter.Exporter.Server.{
  Checked, refused, asks, check_query, Reader, arrived, at_lock, at_auth, at_modules, replied,
  Server, ServerReach,
}

module _ {A M : Type 0} where
  -- What `handler` answers to a query of which the check came out.
  by_check : Bool → Config A M → Values → Checked → Response A M
  by_check debug config query (refused b) = bad_request b
  by_check debug config query (asks names) =
      configured debug config query names
        (lookup (or_public_v2 (get query (text "auth"))) config.auths)

-- The request has the lock and looks up its auth and its modules.
abbrev pub Reads : {A M : Type 0} → Values → Reader A M → Type 0
Reads query (at_auth q names) = q ≡ query
Reads query (at_modules q auth names nmodules) = q ≡ query
Reads query _ = ⊥

module _ {A M E : Type 0} (debug : Bool) (s w : Server A M E) where
  -- On the way from `s` to `w` there is a moment at which the request has the lock, and the answer is
  -- that of `handler` with the configuration of that moment; or it is so with every configuration.
  abbrev pub AnsweredFrom : ℕ → Values → Response A M → Type 0
  AnsweredFrom i query r =
      ((c : Config A M) → r ≡ handler debug c query)
      ⊎ ((t : Server A M E) × (ServerReach debug s t
            × (ServerReach debug t w
                × (Reads query (t.readers i) × (r ≡ handler debug t.config query)))))

  -- Where a request stands, with the configuration that is loaded.
  abbrev Fine : Config A M → ℕ → Reader A M → Type 0
  Fine c i (arrived query) = Unit
  Fine c i (at_lock query names) = check_query query ≡ asks names
  Fine c i (at_auth query names) = check_query query ≡ asks names
  Fine c i (at_modules query auth names nmodules) =
      handler debug c query ≡ respond debug query auth (find_modules c.modules names nmodules)
  Fine c i (replied query r) = AnsweredFrom i query r

  abbrev AllFine : Server A M E → Type 0
  AllFine t = (j : ℕ) → Fine t.config j (t.readers j)
