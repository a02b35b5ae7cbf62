-- ===== src/Inventory.antt =====
-- Stock keeping: src/modules/inventory/inventory.service.ts. The state that the service writes, and
-- its operations in the child modules.
pub mod State
pub mod Adjust
pub mod Transfer
pub mod Dispatch
pub mod Receive
pub mod Balance
pub mod Arrival
pub mod Trace
pub mod Sound
pub mod Invariant
pub mod Shipping
pub mod Runs
pub mod Effects
pub mod Order
mod Tests
