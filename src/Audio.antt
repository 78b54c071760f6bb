-- ===== src/Audio.antt =====
-- src/lune/audio.
pub mod Span
pub mod Vad
pub mod Preroll
pub mod Transport
pub mod Devices
mod Tests
