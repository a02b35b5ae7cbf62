-- ===== src/Purchasing.antt =====
-- Purchase orders and goods receipts: src/modules/purchasing/purchasing.service.ts. Quantities are
-- thousandths; amounts are exact, in units of 10 ^ -5 of the currency.
pub mod State
pub mod Order
pub mod Prepare
pub mod Receive
pub mod Totals
pub mod Received
pub mod Receipt
pub mod Goods
mod Tests
