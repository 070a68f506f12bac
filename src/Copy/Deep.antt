-- ===== src/Copy/Deep.antt =====
-- zz_generated.deepcopy.go: the proofs that its copies are deep.
pub mod Experiment
pub mod Schedule
pub mod Objects
pub mod Interface
pub mod Types
