-- ===== src/Registry.antt =====
-- The agent directory (registry/): records in a state store, and a per-team index of names.
pub mod Records
pub mod Store
pub mod DaprStore
pub mod Directory
mod Tests
