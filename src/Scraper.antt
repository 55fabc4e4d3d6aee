-- ===== src/Scraper.antt =====
-- The package scraper: what stands between the collector and the gosnmp library.
pub mod Target
pub mod Wrapper
pub mod Mock
