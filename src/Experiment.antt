-- ===== src/Experiment.antt =====
-- internal/controller/chaosexperiment_controller.go
pub mod Parts
pub mod Running
pub mod Reconcile
pub mod Steps
pub mod Invariant
pub mod Policy
pub mod Keeping
pub mod Machine
pub mod Order
pub mod Refinement
pub mod Lifetime
pub mod Server
pub mod Writes
pub mod Ending
pub mod System
pub mod Requeue
pub mod Progress
pub mod Tally
pub mod Gains
pub mod Turns
