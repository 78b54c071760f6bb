-- ===== src/Memory.antt =====
-- What the companion remembers: src/lune/memory.
pub mod Steps
pub mod Related
pub mod Told
pub mod Writes
pub mod Proposals
pub mod Usage
pub mod Ordered
pub mod Coverage
pub mod Store
pub mod Summary
pub mod Titles
mod Tests
