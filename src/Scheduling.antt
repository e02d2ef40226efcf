-- ===== src/Scheduling.antt =====
-- backend/app/scheduling: cutting the work into sessions, the free time, the constraints.
pub mod Sessions
pub mod Slots
pub mod Problem
pub mod Overlap
pub mod Windows
pub mod Candidates
pub mod Constraints
pub mod Penalties
pub mod Solver
