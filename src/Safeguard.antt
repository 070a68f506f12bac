-- ===== src/Safeguard.antt =====
-- internal/safeguard
pub mod Interfaces
pub mod Checks
pub mod Http
pub mod Alertmanager
pub mod Prometheus
pub mod Watcher
pub mod Ticker
pub mod Silent
pub mod Patience
pub mod Agreement
pub mod Halting
pub mod Relay
pub mod Chain
pub mod Vigilance
pub mod Heeding
pub mod Writes
pub mod Fetching
pub mod Backends
pub mod Instant
