-- ===== src/Serializer/Accepted.antt =====
-- The metrics that `deserialize` of src/serializer/MetricsDeserializer.cpp returns.
mod Fields
pub mod Valid
