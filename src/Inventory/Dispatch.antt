-- ===== src/Inventory/Dispatch.antt =====
-- `InventoryService.dispatch`: the goods of a submitted transfer leave the source branch.
use technova_pos_api.Prelude.{
  ℕ, ◌*◌, ◌%◌, Bool, ◌&&◌, ◌||◌, not, Option, none, some, List, [], ◌∷◌, map, ◌==◌, if◌then◌else◌,
  any, filter, length,
}
use technova_pos_api.Prelude.Result.{
  Result, ok, or_raise, raise_if, ◌>>=◌, ◌>>◌, bad_request, conflict, lit, about,
}
use technova_pos_api.Prelude.Text.{Text, text_eq, trim, to_upper}
use technova_pos_api.Directory.{Directory, User}
use technova_pos_api.Stock.{
  Stock, InventoryUnit, UnitStatus, StockMovement, MovementType, Reference, piece, is_in_stock,
  take_stock, record_movement, update_unit,
}
use technova_pos_api.Inventory.State.{
  State, StockTransfer, TransferItem, TransferStatus, is_submitted, audit, update_transfer,
  find_transfer,
}

-- `DispatchSerialsDto`
pub record DispatchSerials : Type 0 where
  pub product : ℕ
  pub serials : List Text

abbrev pub normalize_serial : Text → Text
normalize_serial s = to_upper (trim s)

-- `serialMap.get(productId) ?? []`; in the map a later entry for a product replaces an earlier one.
unfoldable pub find_serials : ℕ → List DispatchSerials → Option (List Text)
find_serials p [] = none
find_serials p (d ∷ ds) = elim (find_serials p ds) [
  | some serials ↦ some serials
  | none ↦ if d.product == p then some (map normalize_serial d.serials) else none
]

unfoldable pub serials_of : ℕ → List DispatchSerials → List Text
serials_of p ds = elim (find_serials p ds) [ none ↦ [] | some serials ↦ serials ]

-- `item.product.trackSerials`
unfoldable pub tracks_serials : Directory → ℕ → Bool
tracks_serials dir p = any (λ x. x.id == p && x.track_serials) dir.products

abbrev pub has_serial : List Text → InventoryUnit → Bool
has_serial serials u = any (λ s. text_eq s u.serial) serials

-- `inventoryUnit.findMany` with `serialNumber: { in: serials }`
unfoldable pub units_on_shelf : ℕ → ℕ → List Text → List InventoryUnit → List InventoryUnit
units_on_shelf b p serials =
    filter (λ u. (u.branch == b && u.product == p) && has_serial serials u && is_in_stock u.status)

abbrev pub transfer_movement :
    User → StockTransfer → ℕ → MovementType → ℕ → Option ℕ → ℕ → StockMovement
transfer_movement actor t branch kind product unit q = record {
  branch = branch;
  product = product;
  unit = unit;
  user = actor.id;
  kind = kind;
  quantity = q;
  reference = Reference.stock_transfer t.id;
  reason = t.notes;
}

-- The inner loop: each unit is reserved, with a movement of one piece.
unfoldable pub reserve_units : User → StockTransfer → ℕ → List InventoryUnit → Stock → Stock
reserve_units actor t p [] st = st
reserve_units actor t p (u ∷ us) st = reserve_units actor t p us (
    record_movement
      (transfer_movement actor t t.source MovementType.transfer_out p (some u.id) piece)
      (update_unit u.id (λ x. record x { status = UnitStatus.reserved }) st))

-- The part of the loop's body behind the decrement.
unfoldable pub send_units : User → StockTransfer → TransferItem → List Text → Stock → Result Stock
send_units actor t item [] st = ok (
    record_movement
      (transfer_movement actor t t.source MovementType.transfer_out item.product none item.quantity)
      st)
send_units actor t item (s ∷ ss) st = do
  let units = units_on_shelf t.source item.product (s ∷ ss) st.units
  raise_if (not (length units == length (s ∷ ss)))
      (conflict (about "One or more % serial numbers are unavailable." item.product))
  ok (reserve_units actor t item.product units st)

-- The loop's body.
unfoldable pub dispatch_item :
    Directory → User → StockTransfer → List DispatchSerials → TransferItem → Stock → Result Stock
dispatch_item dir actor t ds item st = do
  let serials = serials_of item.product ds
  let tracked = tracks_serials dir item.product
  raise_if
      (tracked
        && (not (item.quantity % piece == 0) || not (length serials * piece == item.quantity)))
      (bad_request (about "Every % unit requires one serial number." item.product))
  raise_if (not tracked && not (length serials == 0))
      (bad_request (about "% is not serialized." item.product))
  left ←
      or_raise (take_stock t.source item.product item.quantity st)
        (conflict (about "Insufficient stock for %." item.product))
  send_units actor t item serials left

unfoldable pub dispatch_items :
    Directory
    → User
    → StockTransfer
    → List DispatchSerials
    → List TransferItem
    → Stock
    → Result Stock
dispatch_items dir actor t ds [] st = ok st
dispatch_items dir actor t ds (item ∷ items) st =
    dispatch_item dir actor t ds item st >>= dispatch_items dir actor t ds items

-- `now` is the time of the request.
unfoldable pub dispatch : Directory → ℕ → User → ℕ → List DispatchSerials → State → Result State
dispatch dir now actor id ds st = do
  t ← find_transfer dir actor.id id st.transfers
  raise_if (not (is_submitted t.status))
      (conflict (lit "Only submitted transfers can be dispatched."))
  stock ← dispatch_items dir actor t ds t.items st.stock
  ok (record st {
    stock = stock;
    transfers =
        update_transfer id
          (λ x. record x { status = TransferStatus.in_transit; dispatched_at = some now })
          st.transfers;
    audits = audit actor "STOCK_TRANSFER_DISPATCHED" id st.audits;
  })
