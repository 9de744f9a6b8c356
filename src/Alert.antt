-- ===== src/Alert.antt =====
-- The alerts of the server, include/alert/ and src/alert/.
pub mod Evaluator
pub mod Manager
mod Tests
