-- ===== src/Pipeline.antt =====
-- src/lune/pipeline: turn detection, central cancellation and playback.
pub mod Contracts
pub mod Gate
pub mod Coordinator
pub mod Playback
mod Tests
