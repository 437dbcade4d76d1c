-- ===== src/Gateway.antt =====
-- src/network_traversal/gateway.rs: the gateway that the route table selects, where the table comes
-- from, and the exchanges that are bound to that gateway.
pub mod Routes
pub mod Scanning
pub mod Selection
pub mod Sources
pub mod Numerals
pub mod ProcTable
pub mod Netlink
pub mod Control
mod Tests
