-- ===== src/Agent.antt =====
-- The graph engine (agent/): shared state, the graph builder and its compilation, the in-process
-- interpreter, and the serializable description of a graph.
pub mod State
pub mod Graph
pub mod Config
pub mod Compile
pub mod Engine
mod Tests
