-- ===== src/Tests/Server.antt =====
-- The theorems on the server at a run in which a reload waits for a request.
use snmp_exporter.Common.{ℕ, ◌≡◌, refl, false, [], ◌∷◌}
use snmp_exporter.Common.Text.{Bytes, text, equal, split, split_onto}
use snmp_exporter.Common.Map.{lookup, insert}
use snmp_exporter.Exporter.Request.{
  Values, values, get, first_value, Config, or_public_v2, is_repeated, parse_modules, respond,
  found, at_least_one, or_if_mib, add_queries, add_modules, add_module,
}
use snmp_exporter.Common.{arith}
use snmp_exporter.Exporter.Server.{
  holds, Method, post, Server, replied, check, lock_read, read_auth, read_module, unlock,
  switch_method, take_post, ServerReach, start, step, init_server, check_query, checked, at_auth,
  after_method, loading, on_post, waiting, auth_read, module_read, set,
}
use snmp_exporter.Exporter.Server.Answered.{CanBeAnswered, waiting-CanBeAnswered}

abbrev config : Config ℕ ℕ
config = record { auths = (text "public_v2", 1) ∷ []; modules = (text "if_mib", 2) ∷ [] }

abbrev query : Values
query = (text "target", text "switch" ∷ []) ∷ []

abbrev queries : ℕ → Values
queries i = query

abbrev methods : ℕ → Method
methods i = post

abbrev fresh_server : Server ℕ ℕ Bytes
fresh_server = init_server config queries methods

-- The first request takes the lock; then a POST is taken and its configuration loaded, which waits for
-- the lock until the request has its answer.
abbrev checking : Server ℕ ℕ Bytes
checking = record fresh_server {
  readers = set 0 (checked query (check_query query)) fresh_server.readers;
}

abbrev locked : Server ℕ ℕ Bytes
locked = record checking { readers = set 0 (at_auth query (text "if_mib" ∷ [])) checking.readers }

abbrev reading : Server ℕ ℕ Bytes
reading = record locked {
  readers =
      set 0
        (auth_read query (text "if_mib" ∷ [])
          (lookup (or_public_v2 (get query (text "auth"))) locked.config.auths))
        locked.readers;
}

abbrev asking : Server ℕ ℕ Bytes
asking = record reading { posters = set 0 (after_method post) reading.posters }

abbrev taken : Server ℕ ℕ Bytes
taken = record asking { reloader = loading (on_post 0); posters = set 0 waiting asking.posters }

abbrev found_module : Server ℕ ℕ Bytes
found_module = record taken {
  readers =
      set 0
        (module_read query 1 (text "if_mib") [] [] (lookup (text "if_mib") taken.config.modules))
        taken.readers;
}

abbrev served : Server ℕ ℕ Bytes
served = record found_module {
  readers =
      set 0 (replied query (respond false query 1 (found ((text "if_mib", 2) ∷ []))))
        found_module.readers;
}

server_run : ServerReach false fresh_server served
unfolding init_server check_query checked auth_read module_read lookup equal text get values
    first_value or_public_v2 is_repeated parse_modules add_queries add_modules add_module or_if_mib
    at_least_one split split_onto insert
server_run =
    step
      (step
        (step
          (step
            (step
              (step (step start (check 0 query refl)) (lock_read 0 query (text "if_mib" ∷ []) refl))
              (read_auth 0 query (text "if_mib" ∷ []) refl))
            (switch_method 0 post refl))
          (take_post 0 refl refl))
        (read_module 0 query 1 (text "if_mib") [] [] refl))
      (unlock 0 query 1 ((text "if_mib", 2) ∷ []) refl)

nobody_holds : (j : ℕ) → holds (served.readers j) ≡ false
unfolding holds init_server
nobody_holds j = ground arith

waiting-CanBeAnswered_example : CanBeAnswered false 0 served
waiting-CanBeAnswered_example =
    waiting-CanBeAnswered false config queries methods served 0 server_run refl nobody_holds
