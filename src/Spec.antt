-- ===== src/Spec.antt =====
-- What each operation of internal/history and of the polling of tasks promises, without transactions
-- and failures.
pub mod Effects
pub mod Start
pub mod ActivityTask
pub mod Timers
pub mod Signal
pub mod Polling
pub mod WorkflowTask
