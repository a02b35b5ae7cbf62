-- ===== src/Returns/Restock.antt =====
-- The loop of the transaction of `ReturnsService.create`: the rows, the stock and the warranty of
-- each returned line.
use technova_pos_api.Prelude.{
  ℕ, ◌*◌, ◌/◌, Bool, false, Option, none, some, List, [], ◌∷◌, ◌==◌, if◌then◌else◌, update_many,
}
use technova_pos_api.Prelude.Text.{Text}
use technova_pos_api.Directory.{User}
use technova_pos_api.Stock.{
  Stock, UnitStatus, StockMovement, MovementType, Reference, piece, put_stock, record_movement,
  update_unit,
}
use technova_pos_api.Returns.State.{
  State, Sale, ReturnItem, ReturnLine, Warranty, WarrantyStatus, WarrantyEvent,
}
use technova_pos_api.Returns.Prepare.{PreparedReturn}

-- `row.input.restock ?? false`
abbrev pub restocks : ReturnLine → Bool
restocks input = elim input.restock [ none ↦ false | some b ↦ b ]

-- `returnItem.create`; the refund of one unit is rounded down to the unit of amounts.
unfoldable pub return_item : ℕ → PreparedReturn → ReturnItem
return_item id row = record {
  of = id;
  sale_item = row.item.id;
  quantity = row.input.quantity;
  unit_refund = row.refund * piece / row.input.quantity;
  condition = row.input.condition;
  restock = restocks row.input;
}

-- The movement `RETURN_IN` of one unit, or of the quantity that is returned.
abbrev pub return_movement : User → ℕ → Sale → PreparedReturn → ℕ → StockMovement
return_movement actor id sale row quantity = record {
  branch = sale.branch;
  product = row.item.product;
  unit = row.item.unit;
  user = actor.id;
  kind = MovementType.return_in;
  quantity = quantity;
  reference = Reference.return id;
  reason = row.input.condition;
}

-- The statements on the stock, in a round of the loop: a serialized unit is marked and logged, and
-- a quantity is put back where the request says so.
unfoldable pub restock_line : User → ℕ → Sale → PreparedReturn → Stock → Stock
restock_line actor id sale row st = elim row.item.unit [
  | some u ↦
      record_movement (return_movement actor id sale row piece)
        (update_unit u (λ x. record x { status = UnitStatus.returned }) st)
  | none ↦
      if restocks row.input
      then record_movement (return_movement actor id sale row row.input.quantity)
          (put_stock sale.branch row.item.product row.input.quantity st)
      else st
]

abbrev pub voided : ℕ → Warranty → Warranty
voided now w = record w { status = WarrantyStatus.voided; voided_at = some now }

-- The warranty of a serialized line is voided.
unfoldable pub void_warranty : ℕ → Option ℕ → Option ℕ → List Warranty → List Warranty
void_warranty now (some _) (some w) ws = update_many (λ (x : Warranty). x.id == w) (voided now) ws
void_warranty now _ _ ws = ws

unfoldable pub log_voided : Text → Option ℕ → Option ℕ → List WarrantyEvent → List WarrantyEvent
log_voided reason (some _) (some w) es =
    record { warranty = w; kind = "VOIDED_BY_RETURN"; notes = reason } ∷ es
log_voided reason _ _ es = es

-- One round of the loop.
unfoldable pub return_line : User → ℕ → ℕ → Text → Sale → PreparedReturn → State → State
return_line actor now id reason sale row st = record st {
  return_items = return_item id row ∷ st.return_items;
  stock = restock_line actor id sale row st.stock;
  warranties = void_warranty now row.item.unit row.item.warranty st.warranties;
  warranty_events = log_voided reason row.item.unit row.item.warranty st.warranty_events;
}

unfoldable pub return_lines : User → ℕ → ℕ → Text → Sale → List PreparedReturn → State → State
return_lines actor now id reason sale [] st = st
return_lines actor now id reason sale (row ∷ rows) st =
    return_lines actor now id reason sale rows (return_line actor now id reason sale row st)
