-- ===== src/Store.antt =====
-- The server's stores, include/store/ and src/store/. Each method holds the store's mutex for its
-- whole body, so a call is one step; the clock's answer is an argument of the methods that read it.
pub mod HistoryStore
pub mod MetricsStore
pub mod StateTracker
mod Tests
