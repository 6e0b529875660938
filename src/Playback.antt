-- ===== src/Playback.antt =====
-- pkg/playback: what plays in a room.
pub mod Timer
pub mod Admin
pub mod Util
pub mod Room
pub mod Handler
