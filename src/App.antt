-- ===== src/App.antt =====
-- core/src/app.rs: the application state, the demo planner, the gated interactions, and the steps that
-- clients and background tasks take on them.
pub mod Live
pub mod State
pub mod Targets
pub mod Lifecycle
pub mod Planner
pub mod DemoApproval
pub mod Dispatch
pub mod Tasks
pub mod Quiet
pub mod AuditWords
