-- ===== src/Sources.antt =====
-- backend/app/sources: from a source to tasks.
pub mod Schemas
pub mod Dedupe
pub mod Analysis
pub mod Capture
pub mod Execution
pub mod Proposals
