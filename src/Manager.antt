-- ===== src/Manager.antt =====
-- cmd/main.go: the flags, the options of the servers, and the wiring of the manager.
pub mod Options
pub mod Wiring
pub mod Setup
pub mod Production
pub mod Scheme
