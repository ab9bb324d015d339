-- ===== src/Adapters.antt =====
-- The framework adapters (adapters/): a chat model as a node of a graph.
pub mod Options
pub mod Eino
pub mod Langchaingo
pub mod ToolLoop
mod Tests
