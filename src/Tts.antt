-- ===== src/Tts.antt =====
-- src/lune/tts.
pub mod Contracts
pub mod Circuit
pub mod Protocol
pub mod Router
mod Tests
