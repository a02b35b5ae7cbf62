-- ===== src/System.antt =====
-- The services together: the stock tables (src/modules/inventory, src/modules/sales,
-- src/modules/purchasing and src/modules/returns) that four services write.
pub mod Steps
pub mod Balance
mod Tests
