-- ===== src/Serializer/RoundTrip.antt =====
-- Texts of src/serializer/MetricsSerializer.cpp, read by src/serializer/MetricsDeserializer.cpp.
pub mod Sendable
mod Fields
pub mod Lines
mod Processes
pub mod Whole
