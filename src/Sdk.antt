-- ===== src/Sdk.antt =====
-- sdk: what a worker runs against the engine.
pub mod Context
pub mod Workflow
pub mod Worker
pub mod Client
pub mod Registry
pub mod Loops
pub mod Asks
pub mod Fresh
pub mod Steps
pub mod Lookups
pub mod Earlier
pub mod Idempotent
