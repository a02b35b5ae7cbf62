-- ===== src/Inventory/Arrival.antt =====
-- What `receive` does to the stock tables, for a transfer whose units are all in the log.
use technova_pos_api.Prelude.{
  ℕ, ◌+◌, ◌*◌, ◌≡◌, refl, ◌⊎◌, some, List, [], ◌∷◌, if◌then◌else◌, length, arith, All, All-map,
}
use technova_pos_api.Directory.{User}
use technova_pos_api.Stock.{
  Stock, UnitStatus, MovementType, StockMovement, piece, put_stock, record_movement, update_unit,
}
use technova_pos_api.Stock.Ledger.{Keeps, Keeps-trans, incoming, outgoing, same, on_hand-put_level}
use technova_pos_api.Inventory.State.{StockTransfer, TransferItem}
use technova_pos_api.Inventory.Dispatch.{transfer_movement}
use technova_pos_api.Inventory.Receive.{
  units_sent, shelve_units, take_in, receive_item, receive_items,
}

-- The movement log has a unit for each piece of the item, or no unit at all.
abbrev pub IsCovered : ℕ → List StockMovement → TransferItem → Type 0
IsCovered id ms item =
    (units_sent id item.product ms ≡ [])
    ⊎ (length (units_sent id item.product ms) * piece ≡ item.quantity)

shelve_units-Keeps :
    (actor : User) (t : StockTransfer) (p : ℕ) (us : List ℕ) (st : Stock) (b' p' : ℕ)
    → let st' = shelve_units actor t p us st in
      (st'.levels ≡ st.levels)
      × (outgoing b' p' st'.movements ≡ outgoing b' p' st.movements)
      × (incoming b' p' st'.movements
          ≡ incoming b' p' st.movements
            + (if same t.destination p b' p' then length us * piece else 0))
unfolding shelve_units
shelve_units-Keeps actor t p [] st b' p' = ground arith
shelve_units-Keeps actor t p (u ∷ us) st b' p' = ground (
  arith,
  shelve_units-Keeps actor t p us
      (record_movement
        (transfer_movement actor t t.destination MovementType.transfer_in p (some u) piece)
        (update_unit u (λ x. record x { branch = t.destination; status = UnitStatus.in_stock }) st))
      b' p',
)

take_in-Keeps :
    (actor : User) (t : StockTransfer) (item : TransferItem) (us : List ℕ) (st : Stock) (b' p' : ℕ)
    → (us ≡ []) ⊎ (length us * piece ≡ item.quantity)
    → let st' = take_in actor t item us st in
      (st'.levels ≡ st.levels)
      × (outgoing b' p' st'.movements ≡ outgoing b' p' st.movements)
      × (incoming b' p' st'.movements
          ≡ incoming b' p' st.movements
            + (if same t.destination item.product b' p' then item.quantity else 0))
unfolding take_in
take_in-Keeps actor t item [] st b' p' h = ground arith
take_in-Keeps actor t item (u ∷ us) st b' p' h =
    ground (arith, shelve_units-Keeps actor t item.product (u ∷ us) st b' p')

-- One round of the loop of `receive`.
pub receive_item-Keeps :
    (actor : User) (t : StockTransfer) (item : TransferItem) (st : Stock)
    → IsCovered t.id st.movements item
    → Keeps st (receive_item actor t item st)
unfolding receive_item
receive_item-Keeps actor t item st h b p = ground (
  arith,
  on_hand-put_level t.destination item.product item.quantity b p st.levels,
  take_in-Keeps actor t item (units_sent t.id item.product st.movements)
      (put_stock t.destination item.product item.quantity st) b p h,
)

-- The arrivals that are logged do not change which units were sent.
units_sent-shelve_units :
    (actor : User) (t : StockTransfer) (p : ℕ) (us : List ℕ) (st : Stock) (id q : ℕ)
    → units_sent id q (shelve_units actor t p us st).movements ≡ units_sent id q st.movements
unfolding shelve_units units_sent
units_sent-shelve_units actor t p [] st id q = refl
units_sent-shelve_units actor t p (u ∷ us) st id q = ground (
  arith,
  units_sent-shelve_units actor t p us
      (record_movement
        (transfer_movement actor t t.destination MovementType.transfer_in p (some u) piece)
        (update_unit u (λ x. record x { branch = t.destination; status = UnitStatus.in_stock }) st))
      id q,
)

units_sent-take_in :
    (actor : User) (t : StockTransfer) (item : TransferItem) (us : List ℕ) (st : Stock) (id q : ℕ)
    → units_sent id q (take_in actor t item us st).movements ≡ units_sent id q st.movements
unfolding take_in units_sent
units_sent-take_in actor t item [] st id q = refl
units_sent-take_in actor t item (u ∷ us) st id q =
    units_sent-shelve_units actor t item.product (u ∷ us) st id q

pub units_sent-receive_item :
    (actor : User) (t : StockTransfer) (item : TransferItem) (st : Stock) (id q : ℕ)
    → units_sent id q (receive_item actor t item st).movements ≡ units_sent id q st.movements
unfolding receive_item
units_sent-receive_item actor t item st id q =
    units_sent-take_in actor t item (units_sent t.id item.product st.movements)
      (put_stock t.destination item.product item.quantity st) id q

pub receive_items-Keeps :
    (actor : User) (t : StockTransfer) (items : List TransferItem) (st : Stock)
    → All (IsCovered t.id st.movements) items
    → Keeps st (receive_items actor t items st)
unfolding receive_items
receive_items-Keeps actor t [] st h = λ b p. refl
receive_items-Keeps actor t (item ∷ items) st h =
    let mid = receive_item actor t item st in
    Keeps-trans st mid (receive_items actor t items mid) (receive_item-Keeps actor t item st h.0) (
      receive_items-Keeps actor t items mid
        (All-map (λ i c. rw (units_sent-receive_item actor t item st t.id i.product) c) items h.1))
