-- ===== src/Alarm.antt =====
-- The alarm service, vgo/alarm/service: the groups that it watches, what the gRPC manager writes
-- into them, and the handler of the reports that arrive over NATS.
pub mod State
pub mod Counter
pub mod Process
pub mod Manager
mod Tests
