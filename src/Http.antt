-- ===== src/Http.antt =====
-- The HTTP server: include/http/ and src/http/.
pub mod Response
pub mod Json
pub mod Api
pub mod Routes
pub mod Sending
pub mod Thread
mod Tests
