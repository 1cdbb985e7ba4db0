-- ===== src/Wiring.antt =====
-- What the `main` functions of services/*/cmd/main.go share: the process with its deferred calls, and
-- the configuration.
pub mod Process
pub mod Config
pub mod Orderly
