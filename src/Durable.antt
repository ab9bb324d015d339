-- ===== src/Durable.antt =====
-- The durable backend (durable/): a compiled graph as a Dapr workflow with an activity per node.
pub mod Workflow
pub mod Backend
pub mod Worker
mod Tests
