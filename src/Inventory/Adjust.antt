-- ===== src/Inventory/Adjust.antt =====
-- `InventoryService.adjust`: a manual correction of the quantity of a product at a branch.
use technova_pos_api.Prelude.{ℕ, suc, Bool, false, none, some, ◌==◌}
use technova_pos_api.Prelude.Int.{ℤ, pos, negsuc}
use technova_pos_api.Prelude.Result.{
  Result, ok, or_raise, raise_if, ◌>>=◌, ◌>>◌, bad_request, not_found, conflict, lit,
}
use technova_pos_api.Prelude.Text.{Text}
use technova_pos_api.Directory.{Directory, User, organization_id, find_product, find_branch}
use technova_pos_api.Stock.{
  Stock, StockMovement, MovementType, Reference, put_stock, take_stock, record_movement,
}
use technova_pos_api.Inventory.State.{State, audit}

-- `AdjustmentDto`
pub record Adjustment : Type 0 where
  pub branch : ℕ
  pub product : ℕ
  pub delta : ℤ
  pub reason : Text

abbrev adjustment_movement : User → Adjustment → MovementType → ℕ → StockMovement
adjustment_movement actor dto kind q = record {
  branch = dto.branch;
  product = dto.product;
  unit = none;
  user = actor.id;
  kind = kind;
  quantity = q;
  reference = Reference.no_reference;
  reason = some dto.reason;
}

-- The transaction: an upsert for a positive delta, a guarded decrement for a negative one.
unfoldable pub adjust_stock : User → Adjustment → ℤ → Stock → Result Stock
adjust_stock actor dto (pos q) st = ok (
    record_movement (adjustment_movement actor dto MovementType.adjustment_in q)
      (put_stock dto.branch dto.product q st))
adjust_stock actor dto (negsuc n) st = do
  left ←
      or_raise (take_stock dto.branch dto.product (suc n) st)
        (conflict (lit "Insufficient stock for this adjustment."))
  ok (record_movement (adjustment_movement actor dto MovementType.adjustment_out (suc n)) left)

abbrev pub is_zero : ℤ → Bool
is_zero (pos n) = n == 0
is_zero (negsuc _) = false

unfoldable pub adjust : Directory → User → Adjustment → State → Result State
adjust dir actor dto st = do
  raise_if (is_zero dto.delta) (bad_request (lit "Adjustment quantity cannot be zero."))
  org ← organization_id dir actor.id
  product ←
      or_raise (find_product dir org dto.product) (not_found (lit "Product or branch not found."))
  branch ←
      or_raise (find_branch dir org dto.branch) (not_found (lit "Product or branch not found."))
  raise_if product.track_serials
      (bad_request (lit "Serialized inventory must be adjusted by individual unit status."))
  stock ← adjust_stock actor dto dto.delta st.stock
  ok (record st { stock = stock; audits = audit actor "INVENTORY_ADJUSTED" dto.product st.audits })
