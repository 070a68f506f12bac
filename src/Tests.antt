-- ===== src/Tests.antt =====
-- Concrete objects, and the theorems at them.
pub mod Fixtures
pub mod Controllers
pub mod Safeguards
pub mod Runs
pub mod Watching
pub mod Program
pub mod Versions
pub mod Shelf
pub mod Lawful
pub mod Copies
pub mod Turning
pub mod Relaying
pub mod Registry
pub mod Answers
pub mod Timetable
