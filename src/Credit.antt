-- ===== src/Credit.antt =====
-- Credit agreements with customers: src/modules/credit/credit.service.ts. Amounts are thousandths
-- of the currency, so that the code's tolerances 0.01 and 0.001 are 10 and 1.
pub mod State
pub mod Overdue
pub mod Allocate
pub mod Repay
pub mod Shares
pub mod Balance
pub mod Preserve
pub mod Outcome
mod Tests
