-- ===== src/Projects.antt =====
-- The parts of Relay that work on a project's members and meetings.
pub mod Identity
