-- ===== src/Inventory/Balance.antt =====
-- The quantities on hand and the movement log under the operations of `InventoryService`.
use technova_pos_api.Prelude.{
  ℕ, suc, ◌+◌, ◌*◌, ◌<◌, ◌≡◌, refl, ◌⊎◌, inl, inr, some, List, [], ◌∷◌, if◌then◌else◌, length,
  arith, Option-cases,
}
use technova_pos_api.Prelude.Int.{ℤ, pos, negsuc}
use technova_pos_api.Prelude.Result.{ok, >>=-eq-ok}
use technova_pos_api.Directory.{Directory, User}
use technova_pos_api.Stock.{
  Stock, InventoryUnit, UnitStatus, MovementType, piece, take_level, record_movement, update_unit,
}
use technova_pos_api.Prelude.Text.{Text}
use technova_pos_api.Stock.Ledger.{
  Reconciles-Keeps, Reconciles, Keeps, Keeps-trans, incoming, outgoing, same, on_hand-put_level,
  on_hand-take_level,
}
use technova_pos_api.Inventory.State.{State, StockTransfer, TransferItem}
use technova_pos_api.Inventory.Adjust.{Adjustment, adjust_stock, adjust}
use technova_pos_api.Inventory.Dispatch.{
  DispatchSerials, reserve_units, send_units, dispatch_item, dispatch_items, units_on_shelf,
  serials_of, transfer_movement,
}

adjust_stock-Keeps :
    (actor : User) (dto : Adjustment) (delta : ℤ) (st : Stock) {st' : Stock}
    → adjust_stock actor dto delta st ≡ ok st'
    → Keeps st st'
unfolding adjust_stock
adjust_stock-Keeps actor dto (pos q) st e b p =
    ground (arith, on_hand-put_level dto.branch dto.product q b p st.levels)
adjust_stock-Keeps actor dto (negsuc n) st e b p =
    elim (Option-cases (take_level dto.branch dto.product (suc n) st.levels)) [
      | inl refused ↦ ground arith
      | inr (left, taken) ↦
          ground (arith, on_hand-take_level dto.branch dto.product (suc n) b p st.levels taken)
    ]

-- What the inner loop of `dispatch` logs.
reserve_units-Keeps :
    (actor : User) (t : StockTransfer) (p : ℕ) (us : List InventoryUnit) (st : Stock) (b' p' : ℕ)
    → let st' = reserve_units actor t p us st in
      (st'.levels ≡ st.levels)
      × (incoming b' p' st'.movements ≡ incoming b' p' st.movements)
      × (outgoing b' p' st'.movements
          ≡ outgoing b' p' st.movements + (if same t.source p b' p' then length us * piece else 0))
unfolding reserve_units
reserve_units-Keeps actor t p [] st b' p' = ground arith
reserve_units-Keeps actor t p (u ∷ us) st b' p' = ground (
  arith,
  reserve_units-Keeps actor t p us
      (record_movement
        (transfer_movement actor t t.source MovementType.transfer_out p (some u.id) piece)
        (update_unit u.id (λ x. record x { status = UnitStatus.reserved }) st))
      b' p',
)

-- The rest of the loop's body logs what was taken, by units or in one movement.
send_units-Keeps :
    (actor : User) (t : StockTransfer) (item : TransferItem) (ss : List Text) (st : Stock)
    {st' : Stock} (b' p' : ℕ)
    → send_units actor t item ss st ≡ ok st'
    → (ss ≡ []) ⊎ (length ss * piece ≡ item.quantity)
    → (st'.levels ≡ st.levels)
      × (incoming b' p' st'.movements ≡ incoming b' p' st.movements)
      × (outgoing b' p' st'.movements
          ≡ outgoing b' p' st.movements
            + (if same t.source item.product b' p' then item.quantity else 0))
unfolding send_units
send_units-Keeps actor t item [] st b' p' e h = ground arith
send_units-Keeps actor t item (s ∷ ss) st b' p' e h = ground (
  arith,
  reserve_units-Keeps actor t item.product (units_on_shelf t.source item.product (s ∷ ss) st.units)
      st b' p',
)

pub nil_or : (ss : List Text) → (ss ≡ []) ⊎ (0 < length ss)
nil_or [] = inl refl
nil_or (s ∷ ss) = inr (omega arith)

-- One round of the loop of `dispatch`.
pub dispatch_item-Keeps :
    (dir : Directory) (actor : User) (t : StockTransfer) (ds : List DispatchSerials)
    (item : TransferItem) (st : Stock) {st' : Stock}
    → dispatch_item dir actor t ds item st ≡ ok st'
    → Keeps st st'
unfolding dispatch_item
dispatch_item-Keeps dir actor t ds item st {st'} e b p =
    elim (Option-cases (take_level t.source item.product item.quantity st.levels)) [
      | inl refused ↦ ground arith
      | inr (left, taken) ↦ ground (
        arith,
        on_hand-take_level t.source item.product item.quantity b p st.levels taken,
        nil_or (serials_of item.product ds),
        send_units-Keeps actor t item (serials_of item.product ds) (record st { levels = left })
            {st' = st'} b p,
      )
    ]

pub dispatch_items-Keeps :
    (dir : Directory) (actor : User) (t : StockTransfer) (ds : List DispatchSerials)
    (items : List TransferItem) (st : Stock) {st' : Stock}
    → dispatch_items dir actor t ds items st ≡ ok st'
    → Keeps st st'
unfolding dispatch_items
dispatch_items-Keeps dir actor t ds [] st e = λ b p. ground arith
dispatch_items-Keeps dir actor t ds (item ∷ items) st {st'} e =
    let (mid, first, rest) =
      >>=-eq-ok (dispatch_item dir actor t ds item st) (dispatch_items dir actor t ds items) e in
    Keeps-trans st mid st' (dispatch_item-Keeps dir actor t ds item st first)
      (dispatch_items-Keeps dir actor t ds items mid rest)

pub adjust-adjust_stock :
    (dir : Directory) (actor : User) (dto : Adjustment) (st : State) {st' : State}
    → adjust dir actor dto st ≡ ok st'
    → adjust_stock actor dto dto.delta st.stock ≡ ok st'.stock
unfolding adjust
adjust-adjust_stock dir actor dto st e = ground arith

-- The movement of an accepted adjustment explains it.
pub adjust-Keeps :
    (dir : Directory) (actor : User) (dto : Adjustment) (st : State) {st' : State}
    → adjust dir actor dto st ≡ ok st'
    → Keeps st.stock st'.stock
adjust-Keeps dir actor dto st {st'} e =
    adjust_stock-Keeps actor dto dto.delta st.stock (adjust-adjust_stock dir actor dto st e)

-- An accepted adjustment keeps the log and the quantities in agreement.
pub adjust-Reconciles :
    (opening : ℕ → ℕ → ℕ) (dir : Directory) (actor : User) (dto : Adjustment) (st : State)
    {st' : State}
    → adjust dir actor dto st ≡ ok st'
    → Reconciles opening st.stock
    → Reconciles opening st'.stock
adjust-Reconciles opening dir actor dto st {st'} e h =
    Reconciles-Keeps opening st.stock st'.stock (adjust-Keeps dir actor dto st e) h
