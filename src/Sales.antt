-- ===== src/Sales.antt =====
-- Sales at the till: src/modules/sales/sales.service.ts.
pub mod Pricing
pub mod Prices
pub mod State
pub mod Customers
pub mod Checks
pub mod Selling
pub mod Settling
pub mod Checkout
pub mod Quote
pub mod Accepted
pub mod Frames
pub mod Goods
pub mod Accounts
pub mod Limit
pub mod Charged
pub mod Paid
mod Tests
