-- ===== src/Inventory/Receive.antt =====
-- `InventoryService.receive`: the goods of a transfer in transit arrive at their destination.
use technova_pos_api.Prelude.{ℕ, Bool, true, false, ◌&&◌, not, none, some, List, [], ◌∷◌, map, ◌==◌}
use technova_pos_api.Prelude.Result.{Result, ok, raise_if, ◌>>=◌, ◌>>◌, conflict, lit}
use technova_pos_api.Directory.{Directory, User}
use technova_pos_api.Stock.{
  Stock, UnitStatus, StockMovement, MovementType, Reference, piece, put_stock, record_movement,
  update_unit,
}
use technova_pos_api.Inventory.State.{
  State, StockTransfer, TransferItem, TransferStatus, is_in_transit, audit, update_transfer,
  find_transfer,
}
use technova_pos_api.Inventory.Dispatch.{transfer_movement}

abbrev pub of_transfer : ℕ → Reference → Bool
of_transfer id (Reference.stock_transfer i) = i == id
of_transfer id _ = false

abbrev pub is_transfer_out : MovementType → Bool
is_transfer_out MovementType.transfer_out = true
is_transfer_out _ = false

-- The units that a transfer took along, read from the movement log (`outgoing`).
unfoldable pub units_sent : ℕ → ℕ → List StockMovement → List ℕ
units_sent id p [] = []
units_sent id p (m ∷ ms) = elim m.unit [
  | none ↦ units_sent id p ms
  | some u ↦ elim (of_transfer id m.reference && m.product == p && is_transfer_out m.kind) [
    | true ↦ u ∷ units_sent id p ms
    | false ↦ units_sent id p ms
  ]
]

-- The inner loop: each unit moves to the destination, with a movement of one piece.
unfoldable pub shelve_units : User → StockTransfer → ℕ → List ℕ → Stock → Stock
shelve_units actor t p [] st = st
shelve_units actor t p (u ∷ us) st = shelve_units actor t p us (
    record_movement
      (transfer_movement actor t t.destination MovementType.transfer_in p (some u) piece)
      (update_unit u (λ x. record x { branch = t.destination; status = UnitStatus.in_stock }) st))

unfoldable pub take_in : User → StockTransfer → TransferItem → List ℕ → Stock → Stock
take_in actor t item [] st =
    record_movement
      (transfer_movement actor t t.destination MovementType.transfer_in item.product none
        item.quantity)
      st
take_in actor t item (u ∷ us) st = shelve_units actor t item.product (u ∷ us) st

-- The loop's body on the stock tables.
unfoldable pub receive_item : User → StockTransfer → TransferItem → Stock → Stock
receive_item actor t item st =
    let arrived = put_stock t.destination item.product item.quantity st in
    take_in actor t item (units_sent t.id item.product arrived.movements) arrived

unfoldable pub receive_items : User → StockTransfer → List TransferItem → Stock → Stock
receive_items actor t [] st = st
receive_items actor t (item ∷ items) st = receive_items actor t items (receive_item actor t item st)

-- `stockTransferItem.update`, at the end of the loop's body for each item.
abbrev pub mark_received : TransferItem → TransferItem
mark_received i = record i { received_quantity = i.quantity }

unfoldable pub receive : Directory → ℕ → User → ℕ → State → Result State
receive dir now actor id st = do
  t ← find_transfer dir actor.id id st.transfers
  raise_if (not (is_in_transit t.status))
      (conflict (lit "Only in-transit transfers can be received."))
  ok (record st {
    stock = receive_items actor t t.items st.stock;
    transfers =
        update_transfer id
          (λ x. record x {
            status = TransferStatus.received;
            received_at = some now;
            items = map mark_received x.items;
          })
          st.transfers;
    audits = audit actor "STOCK_TRANSFER_RECEIVED" id st.audits;
  })
