-- ===== src/Lib.antt =====
-- Verification of the SNMP exporter: a model of the Go code of the repository and the theorems
-- that make it correct.
--
-- The program. main.go takes a request that names a target, an auth and modules, and reloads the
-- configuration on demand. config/config.go holds the configuration and sets up the session;
-- scraper/gosnmp.go talks to the device. collector/collector.go asks the device for the OIDs of a
-- module (`ScrapeTarget`), files the variables that come back under their OIDs, finds the metric of
-- each in a tree of the configured OIDs (`buildMetricTree`, `collect`), and turns its indexes and
-- values into labels and samples (`indexOidsAsString`, `pduValueAsString`), where
-- collector/display_hint.go formats bytes by an RFC 2579 DISPLAY-HINT. The generator makes the
-- configuration out of the MIBs: generator/net_snmp.go reads them, generator/tree.go makes the
-- modules, and generator/main.go the file.
--
-- The files.
--   Common: bytes, lists, integers, and what the code uses of Go's standard library (strings,
--     strconv, utf8).
--   Collector/Oid: oidToList, listToOid, splitOid, getPrevOid.
--   Collector/DisplayHint: applyDisplayHint. Parts (1) to (5) of its loop are `parse_spec`, the rest
--     of the loop's body is `apply_spec`, the loop is `run`.
--   Collector/Index: combinedTypeMapping and indexOidsAsString (`index_switch` is its switch,
--     `index_combined` the branch above it).
--   Collector/Pdu: pduValueAsString.
--   Collector/Number: getPduValue, parseDateAndTime, parseDateAndTimeWithPattern,
--     parseNtpTimestamp.
--   Collector/Labels: indexesToLabels (`read_indexes`, then `do_lookups`).
--   Collector/Sample: pduToSamples (`shape_of` is its switch), applyRegexExtracts, enumAsInfo,
--     enumAsStateSet, bits.
--   Collector/Scrape: ScrapeTarget (`evaluate_filters`, `apply_allowed`, `get_loop`, `walk_loop`)
--     and the functions on filters.
--   Collector/MetricTree: buildMetricTree and the search of collect.
--   Collector/Collect: collect from the scrape to what is sent to the channel.
--   Collector/Options: the options that Collect and collect set on a client, and the counts of its
--     callbacks.
--   Collector/Worker: the loop of a worker over the modules that it receives.
--   Collector/Schedule: the workers of Collect and the sender of the modules, as a step relation. A
--     panic in `collect` ends the process and is no step of it; Collector/Worker has it as `none`.
--   Config/Auth: Auth, its checks (`check`, in UnmarshalYAML) and ConfigureSNMP.
--   Config/Environment: LoadFile and substituteEnvVariables, with os.Expand.
--   Config/WalkParams: WalkParams with the pointer of its default, and UnmarshalYAML of a module.
--   Config/Marshal: the YAML hooks of secrets and regular expressions.
--   Scraper/Target, Scraper/Wrapper: NewGoSNMP of scraper/gosnmp.go, and the wrapper as the device of
--     a scrape.
--   Scraper/Mock: the mock of scraper/mock.go.
--   Exporter/Request: parseModules, handler and ReloadConfig of main.go.
--   Exporter/Server: handler, updateConfiguration and the goroutine that reloads, with the lock of
--     SafeConfig, as a step relation; `check_query` is handler before the lock, `auth_read` and
--     `module_read` what it does with the lock. `start_up` is main up to the server.
--   Exporter/ConfigPage: the page with the configuration of main.go.
--   Generator/Minimize, Generator/Tree: minimizeOids; metricType, metricAccess, searchNodeTree,
--     getMetricNode.
--   Generator/Store, Generator/Prepare, Generator/Description: walkNode and prepareTree, where the
--     nodes that the code changes through pointers are in a store, by address.
--   Generator/ModuleConfig: the checks of generator/config.go.
--   Generator/Walks, Generator/Indexes, Generator/Metrics, Generator/Lookups, Generator/Addresses,
--     Generator/Overrides, Generator/Module: the parts of generateConfigModule in its order, and the
--     whole of it; Generator/Result: its errors and its panic.
--   Generator/Init: the file descriptors of initSNMP.
--   Generator/Netsnmp: buildMIBTree, getMIBTree, getMibsDir and Copy, over the C structures.
--   Generator/Generate: generateConfig; Generator/Command: scanParseOutput and main.
--   Tests: runs at fixed inputs, and the theorems at inputs that meet their hypotheses.
--
-- Conventions. A Go string or byte slice is a list of bytes. An int is an integer with its wrap-around
-- written out where the code can reach it. A panic is `none`, or a result of its own. A position in a
-- text is the text from there on. Slices are values: no theorem depends on two of them sharing
-- memory. A map is an association list; where the code ranges over a map, the model goes in the order
-- of the list, and a theorem for every list is one for every order.
--
-- Fuel. `applyDisplayHint` gets the length of the hint and of the data together and one more: a round
-- reads on in the hint or uses up data. The get loop gets the count of the OIDs: a round asks for one
-- at least. `indexOidsAsString` needs none, since it calls itself only at types that it handles
-- without a further call.
--
-- Parameters. The device answers by the whole history of requests, so the theorems hold for every
-- agent. Regular expressions, floats, dates, gosnmp.ToBigInt and what prometheus.NewConstMetric
-- accepts are fields of `Host`; the YAML library, the file system, the environment, the C library and
-- the gosnmp client are arguments.
--
-- Not modelled: log lines and the exporter's own metrics; memory limits; times; the text that the
-- YAML library makes of a configuration; flags, routes and the landing page in main.go; of
-- `initSNMP` all but the file descriptors, and the printing of the debug commands of the generator.
-- In Collector/Schedule connecting and collecting are one step of a worker each.
pub mod Common
pub mod Collector
pub mod Config
pub mod Exporter
pub mod Generator
pub mod Scraper
pub mod Tests
