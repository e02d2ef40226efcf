-- ===== src/Domain.antt =====
-- backend/app/domain: the enumerations, the errors and the workflow state machine.
pub mod Enums
pub mod Errors
pub mod Workflows
