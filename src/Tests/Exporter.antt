-- ===== src/Tests/Exporter.antt =====
-- The theorems on a request at a query.
use snmp_exporter.Common.{◌≡◌, refl, false, not, ◌&&◌, List, [], ◌∷◌, some}
use snmp_exporter.Common.Text.{Bytes, text, equal, split, contains}
use snmp_exporter.Common.Map.{lookup, insert}
use snmp_exporter.Exporter.Request.{
  Values, values, first_value, get, add_module, add_modules, add_queries, or_if_mib, at_least_one,
  parse_modules, bad_request, unknown_module, Job, Config, or_public_v2, is_repeated, find_modules,
  respond, configured, with_modules, handler,
}
use snmp_exporter.Exporter.Request.Modules.{DistinctNames, is_named, parse_modules-names}
use snmp_exporter.Exporter.Request.Served.{Served}

abbrev Name : Type 0
Name = Bytes

abbrev query : Values
query =
    (text "target", text "192.0.2.1" ∷ [])
    ∷ (text "module", text "if_mib,,system" ∷ text "system" ∷ [])
    ∷ []

abbrev modules : List Name
modules = text "if_mib" ∷ text "system" ∷ []

modules_run : parse_modules query ≡ some modules
unfolding parse_modules at_least_one add_queries add_modules add_module or_if_mib values insert
    lookup split equal text
modules_run = refl

parse_modules-names_example :
    DistinctNames modules
    × ((x : Bytes)
        → contains modules x
          ≡ (is_named (or_if_mib (values query (text "module"))) x && not (equal x [])))
parse_modules-names_example = parse_modules-names query modules modules_run

-- An auth and a module are their names here.
abbrev config : Config Name Name
config = record {
  auths = (text "public_v2", text "v2") ∷ [];
  modules = (text "system", text "s") ∷ (text "if_mib", text "i") ∷ [];
}

abbrev job : Job Name Name
job = record {
  debug = false;
  target = text "192.0.2.1";
  auth_name = text "public_v2";
  snmp_context = [];
  snmp_engine_id = [];
  auth = text "v2";
  modules = (text "if_mib", text "i") ∷ (text "system", text "s") ∷ [];
}

unknown_module_run :
    handler {M = Name} false (record { auths = config.auths; modules = [] }) query
    ≡ bad_request (unknown_module (text "if_mib"))
unfolding handler with_modules configured respond find_modules or_public_v2 is_repeated get
    first_value parse_modules at_least_one add_queries add_modules add_module or_if_mib values
    insert lookup split equal text
unknown_module_run = refl
