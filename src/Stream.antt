-- ===== src/Stream.antt =====
-- The stream service (vgo/stream/service).
pub mod Hosts
pub mod Ring
mod Tests
