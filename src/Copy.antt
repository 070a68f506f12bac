-- ===== src/Copy.antt =====
pub mod Meta
pub mod Experiment
pub mod Schedule
pub mod ScheduleStatus
pub mod Objects
pub mod Deep
pub mod Interface
