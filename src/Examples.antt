-- ===== src/Examples.antt =====
-- The theorems of the library at concrete inputs.
mod Samples
mod Sessions
mod Executions
mod Values
mod Plans
mod Tasks
mod Analysis
