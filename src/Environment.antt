-- ===== src/Environment.antt =====
-- The environment that the customer command inherits: src/env_names.rs,
-- src/customer_environment.rs, and `customer_environment` of src/supervisor.rs. A name or a value
-- is its bytes; a text compared with a name is its UTF-8 bytes.
pub mod Names
pub mod Maps
pub mod Normalize
pub mod Repaired
pub mod Customer
pub mod Inherited
mod Tests
