-- ===== src/Agent.antt =====
-- The collecting agent, mecury/agent: the buffers of the outputs, the flusher, the filters of the
-- inputs and the accumulator that decorates what they gather.
pub mod Buffer
pub mod Output
pub mod Filter
pub mod Accumulator
pub mod Json
pub mod Influx
mod Tests
