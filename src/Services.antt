-- ===== src/Services.antt =====
-- backend/app/services: the transactions that the API's routes call.
pub mod Workflows
pub mod Approvals
pub mod Execution
pub mod StudyPlan
pub mod Collaborate
pub mod Connections
pub mod Projects
pub mod Cancellation
