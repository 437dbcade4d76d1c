-- ===== src/Traversal.antt =====
-- src/network_traversal: the descriptor of a traversal experiment, and the time that is reserved for
-- one.
pub mod Texts
pub mod Outcomes
pub mod Descriptor
pub mod Validate
pub mod Paired
pub mod Transcript
pub mod Receipts
pub mod Results
pub mod Reserve
pub mod Lifecycle
pub mod Control
pub mod Run
pub mod Tests
