-- ===== src/Generator.antt =====
-- The package of the config generator: generator/tree.go, generator/config.go, generator/net_snmp.go
-- and generator/main.go.
pub mod Tree
pub mod Minimize
pub mod Store
pub mod Description
pub mod Prepare
pub mod Result
pub mod ModuleConfig
pub mod Walks
pub mod Indexes
pub mod Metrics
pub mod Lookups
pub mod Addresses
pub mod Overrides
pub mod Module
pub mod Netsnmp
pub mod Generate
pub mod Command
pub mod Init
