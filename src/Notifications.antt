-- ===== src/Notifications.antt =====
-- Messages to be delivered (src/modules/notifications).
pub mod State
pub mod Outbox
pub mod Once
pub mod Workers
mod Tests
