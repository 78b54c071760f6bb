-- ===== src/Llm.antt =====
-- The language-model side of the companion: src/lune/llm.
pub mod Budget
pub mod Contracts
pub mod Sentences
pub mod Streaming
mod Tests
