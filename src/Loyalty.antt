-- ===== src/Loyalty.antt =====
-- Loyalty rules and points: src/modules/loyalty/loyalty.service.ts.
pub mod State
pub mod Rules
pub mod Points
pub mod Single
pub mod Balance
mod Tests
