-- ===== src/Collector.antt =====
-- The package `collector`: one module for each group of functions of collector/collector.go, and
-- `DisplayHint` for collector/display_hint.go.
pub mod Oid
pub mod Index
pub mod DisplayHint
pub mod Pdu
pub mod Number
pub mod Labels
pub mod Sample
pub mod Scrape
pub mod MetricTree
pub mod Schedule
pub mod Collect
pub mod Options
pub mod Worker
