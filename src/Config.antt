-- ===== src/Config.antt =====
-- The package `config`: config/config.go.
pub mod Auth
pub mod Environment
pub mod WalkParams
pub mod Marshal
