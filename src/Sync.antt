-- ===== src/Sync.antt =====
-- Batches that a till made while it was offline: src/modules/offline-sync/offline-sync.service.ts.
pub mod State
pub mod Submit
pub mod Again
pub mod Outcome
mod Tests
