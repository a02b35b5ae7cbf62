-- ===== src/Common.antt =====
-- What the services share: src/common.
pub mod Pages
pub mod Phone
mod Tests
