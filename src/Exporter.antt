-- ===== src/Exporter.antt =====
-- The HTTP side of the exporter: main.go.
pub mod Request
pub mod Server
pub mod ConfigPage
