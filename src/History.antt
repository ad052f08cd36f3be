-- ===== src/History.antt =====
-- internal/history: the operations on the histories of runs, one module for each group of them.
pub mod Types
pub mod Rows
pub mod Retry
pub mod Start
pub mod WorkflowTask
pub mod ActivityTask
pub mod Timers
pub mod Signal
pub mod Atomic
