-- ===== src/Portal.antt =====
-- The supplier's side of purchase orders: src/modules/suppliers/supplier-portal.service.ts.
pub mod State
pub mod Respond
pub mod Review
pub mod Dispatch
pub mod Agreed
pub mod Totalled
mod Tests
