-- ===== src/Traversal/Run.antt =====
-- The run of a mapping session over its methods: `run_mapping_lifecycle` of
-- src/network_traversal/lifecycle.rs. What the runtime answers during a method is an input, one for
-- each plan; the UPnP calls are a parameter, which says what they report and which of their exchanges
-- are for cleanup.
pub mod Reports
pub mod Creation
pub mod Passes
pub mod Whole
pub mod Spends
pub mod Charged
pub mod Balanced
pub mod Ordered
pub mod Returned
pub mod Reported
pub mod Tests
