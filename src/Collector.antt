-- ===== src/Collector.antt =====
-- The collectors of an agent, include/collector/ and src/collector/.
pub mod Cpu
pub mod Network
pub mod Process
pub mod Host
pub mod Route
mod Tests
