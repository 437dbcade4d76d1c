-- ===== src/Mapping.antt =====
-- src/network_traversal/mapping.rs: the port mappings that are asked of the gateway by PCP and
-- NAT-PMP, and their deletion.
pub mod Packets
pub mod Effects
pub mod Delete
pub mod Create
pub mod Tests
