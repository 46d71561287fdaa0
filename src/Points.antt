-- ===== src/Points.antt =====
-- The line protocol, mecury/misc/points.go, and its times, mecury/misc/time.go.
pub mod Binary
pub mod Escape
pub mod Key
pub mod Line
pub mod TagMap
pub mod Fields
pub mod Build
pub mod Tags
pub mod Number
pub mod Scan
pub mod Section
pub mod Parser
pub mod Time
mod Tests
