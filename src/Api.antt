-- ===== src/Api.antt =====
-- The custom resources of api/v1alpha1.
pub mod Experiment
pub mod Schedule
