-- ===== src/Runtime.antt =====
-- backend/app/runtime: the contract with the agent runtime and what Relay makes of its answers.
pub mod Client
pub mod Http
pub mod Local
