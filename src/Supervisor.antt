-- ===== src/Supervisor.antt =====
-- The supervisor of the customer process: src/supervisor.rs.
pub mod Policy
pub mod Effects
pub mod Watch
pub mod Run
pub mod Start
pub mod Reaping
mod Tests
