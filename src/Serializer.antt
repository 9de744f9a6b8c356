-- ===== src/Serializer.antt =====
-- The LMONITOR/1 text of a set of metrics, include/serializer/ and src/serializer/.
pub mod Writer
pub mod Numbers
pub mod Reader
pub mod RoundTrip
pub mod Accepted
pub mod Example
mod Tests
