-- ===== src/Schedule.antt =====
-- internal/controller/chaosschedule_controller.go
pub mod Gate
pub mod Firing
pub mod Reconcile
pub mod Steps
pub mod Looking
pub mod Quiet
pub mod Policy
pub mod Keeping
pub mod Writes
pub mod Invariant
pub mod Server
pub mod System
pub mod Closed
pub mod Requeue
pub mod Progress
