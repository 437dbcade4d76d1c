-- ===== src/Behaviour.antt =====
-- src/network_traversal/behaviour.rs: the bounded UDP behaviour experiments.
pub mod Exchange
pub mod Topology
pub mod Filtering
pub mod Mapping
pub mod Collect
pub mod Allowance
pub mod Classified
mod Tests
