-- ===== src/Returns.antt =====
-- Returned goods and what the customer gets for them: src/modules/returns/returns.service.ts.
pub mod State
pub mod Prepare
pub mod Refund
pub mod Restock
pub mod Offset
pub mod Create
pub mod Goods
pub mod Within
pub mod Money
pub mod Installments
pub mod Frames
pub mod Steps
pub mod Counted
mod Tests
