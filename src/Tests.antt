-- ===== src/Tests.antt =====
-- Runs of the definitions at fixed inputs, most of them from the repository's own tests, and the
-- theorems at inputs that meet their hypotheses.
pub mod DisplayHint
pub mod Scrape
pub mod Schedule
pub mod Samples
pub mod Collector
pub mod Collect
pub mod Config
pub mod Exporter
pub mod Generator
pub mod Module
pub mod Scraper
pub mod Generate
pub mod Server
pub mod Options
pub mod Marshal
