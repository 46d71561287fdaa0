-- ===== src/Input.antt =====
-- The input plugins of the agent, mecury/plugins/input: what they make of the text that they read.
pub mod Listener
pub mod Haproxy
pub mod Processes
pub mod Text
pub mod Mysql
pub mod Redis
mod Tests
