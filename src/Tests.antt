-- ===== src/Tests.antt =====
-- Runs of the model at concrete inputs, and the theorems applied to them.
pub mod Fixtures
pub mod Flows
pub mod Paths
pub mod Parts
pub mod Providers
pub mod Settings
pub mod Services
