-- ===== src/Discounts.antt =====
-- Discount rules and promotion codes: src/modules/discounts/discounts.service.ts.
pub mod State
pub mod Code
pub mod Manage
pub mod Lifecycle
pub mod Priority
pub mod Chosen
pub mod Started
pub mod Codes
mod Tests
