-- ===== src/Inventory/Trace.antt =====
-- How `dispatch` leaves the units of a transfer in the movement log, where `receive` finds them.
use technova_pos_api.Prelude.{
  ℕ, ◌+◌, ◌*◌, ◌≡◌, ◌≢◌, refl, ◌⊎◌, inl, inr, false, some, List, [], ◌∷◌, map, length, arith,
  Option-cases, All, contains,
}
use technova_pos_api.Prelude.Text.{Text}
use technova_pos_api.Prelude.Result.{ok, >>=-eq-ok}
use technova_pos_api.Directory.{Directory, User}
use technova_pos_api.Stock.{
  Stock, InventoryUnit, UnitStatus, MovementType, StockMovement, piece, take_level, record_movement,
  update_unit,
}
use technova_pos_api.Inventory.State.{StockTransfer, TransferItem}
use technova_pos_api.Inventory.Transfer.{has_duplicates}
use technova_pos_api.Inventory.Dispatch.{
  DispatchSerials, transfer_movement, reserve_units, send_units, dispatch_item, dispatch_items,
  units_on_shelf, serials_of,
}
use technova_pos_api.Inventory.Receive.{units_sent}
use technova_pos_api.Inventory.Arrival.{IsCovered}
use technova_pos_api.Inventory.Balance.{nil_or}

-- The transfer or the product is another one.
abbrev pub IsOther : ℕ → ℕ → ℕ → ℕ → Type 0
IsOther id p id' p' = (id' ≢ id) ⊎ (p' ≢ p)

-- No unit of the item is in the log of the transfer.
abbrev pub IsUnsent : ℕ → List StockMovement → TransferItem → Type 0
IsUnsent id ms item = units_sent id item.product ms ≡ []

module _ (actor : User) (t : StockTransfer) where
  abbrev reserved_once : ℕ → InventoryUnit → Stock → Stock
  reserved_once p u st =
      record_movement
        (transfer_movement actor t t.source MovementType.transfer_out p (some u.id) piece)
        (update_unit u.id (λ x. record x { status = UnitStatus.reserved }) st)

  units_sent-reserve_units :
      (p : ℕ) (us : List InventoryUnit) (st : Stock)
      → length (units_sent t.id p (reserve_units actor t p us st).movements)
        ≡ length us + length (units_sent t.id p st.movements)
  unfolding reserve_units units_sent
  units_sent-reserve_units p [] st = omega arith
  units_sent-reserve_units p (u ∷ us) st =
      ground (arith, units_sent-reserve_units p us (reserved_once p u st))

  units_sent-reserve_units_other :
      (p : ℕ) (us : List InventoryUnit) (st : Stock) (id q : ℕ)
      → IsOther t.id p id q
      → units_sent id q (reserve_units actor t p us st).movements ≡ units_sent id q st.movements
  unfolding reserve_units units_sent
  units_sent-reserve_units_other p [] st id q h = refl
  units_sent-reserve_units_other p (u ∷ us) st id q h =
      ground (arith, units_sent-reserve_units_other p us (reserved_once p u st) id q h)

  units_sent-send_units_other :
      (item : TransferItem) (ss : List Text) (st : Stock) {st' : Stock} (id q : ℕ)
      → send_units actor t item ss st ≡ ok st'
      → IsOther t.id item.product id q
      → units_sent id q st'.movements ≡ units_sent id q st.movements
  unfolding send_units
  units_sent-send_units_other item [] st id q e h = unfold units_sent in ground arith
  units_sent-send_units_other item (s ∷ ss) st id q e h = ground (
    arith,
    units_sent-reserve_units_other item.product
        (units_on_shelf t.source item.product (s ∷ ss) st.units) st id q h,
  )

  send_units-IsCovered :
      (item : TransferItem) (ss : List Text) (st : Stock) {st' : Stock}
      → send_units actor t item ss st ≡ ok st'
      → (ss ≡ []) ⊎ (length ss * piece ≡ item.quantity)
      → units_sent t.id item.product st.movements ≡ []
      → IsCovered t.id st'.movements item
  unfolding send_units
  send_units-IsCovered item [] st e h none_yet = unfold units_sent in ground arith
  send_units-IsCovered item (s ∷ ss) st e h none_yet = ground (
    arith,
    units_sent-reserve_units item.product (units_on_shelf t.source item.product (s ∷ ss) st.units)
        st,
  )

  module _ (dir : Directory) (ds : List DispatchSerials) where
    units_sent-dispatch_item_other :
        (item : TransferItem) (st : Stock) {st' : Stock} (id q : ℕ)
        → dispatch_item dir actor t ds item st ≡ ok st'
        → IsOther t.id item.product id q
        → units_sent id q st'.movements ≡ units_sent id q st.movements
    unfolding dispatch_item
    units_sent-dispatch_item_other item st {st'} id q e h =
        elim (Option-cases (take_level t.source item.product item.quantity st.levels)) [
          | inl refused ↦ ground arith
          | inr (left, taken) ↦ ground (
            arith,
            units_sent-send_units_other item (serials_of item.product ds)
                (record st { levels = left }) {st' = st'} id q,
          )
        ]

    dispatch_item-IsCovered :
        (item : TransferItem) (st : Stock) {st' : Stock}
        → dispatch_item dir actor t ds item st ≡ ok st'
        → units_sent t.id item.product st.movements ≡ []
        → IsCovered t.id st'.movements item
    unfolding dispatch_item
    dispatch_item-IsCovered item st {st'} e h =
        elim (Option-cases (take_level t.source item.product item.quantity st.levels)) [
          | inl refused ↦ ground arith
          | inr (left, taken) ↦ ground (
            arith,
            nil_or (serials_of item.product ds),
            send_units-IsCovered item (serials_of item.product ds) (record st { levels = left })
                {st' = st'},
          )
        ]

    pub units_sent-dispatch_items_other :
        (items : List TransferItem) (st : Stock) {st' : Stock} (id q : ℕ)
        → dispatch_items dir actor t ds items st ≡ ok st'
        → (id ≢ t.id) ⊎ (contains q (map (λ i. i.product) items) ≡ false)
        → units_sent id q st'.movements ≡ units_sent id q st.movements
    unfolding dispatch_items
    units_sent-dispatch_items_other [] st id q e h = ground arith
    units_sent-dispatch_items_other (item ∷ items) st {st'} id q e h =
        let (mid, first, rest) =
          >>=-eq-ok (dispatch_item dir actor t ds item st) (dispatch_items dir actor t ds items)
            e in
        ground (
          arith,
          units_sent-dispatch_item_other item st id q first,
          units_sent-dispatch_items_other items mid id q rest,
        )

    dispatch_item-IsUnsent :
        (item : TransferItem) (st : Stock) {st' : Stock} (items : List TransferItem)
        → dispatch_item dir actor t ds item st ≡ ok st'
        → contains item.product (map (λ i. i.product) items) ≡ false
        → All (IsUnsent t.id st.movements) items
        → All (IsUnsent t.id st'.movements) items
    dispatch_item-IsUnsent item st [] e new h = tt
    dispatch_item-IsUnsent item st (i ∷ items) e new h = ground (
      arith,
      units_sent-dispatch_item_other item st t.id i.product e,
      dispatch_item-IsUnsent item st items e,
    )

    -- After the loop of `dispatch` every item has a unit in the log for each piece, or no unit.
    pub dispatch_items-IsCovered :
        (items : List TransferItem) (st : Stock) {st' : Stock}
        → dispatch_items dir actor t ds items st ≡ ok st'
        → has_duplicates (map (λ i. i.product) items) ≡ false
        → All (IsUnsent t.id st.movements) items
        → All (IsCovered t.id st'.movements) items
    unfolding dispatch_items has_duplicates
    dispatch_items-IsCovered [] st e nodup h = tt
    dispatch_items-IsCovered (item ∷ items) st {st'} e nodup h =
        let (mid, first, rest) =
          >>=-eq-ok (dispatch_item dir actor t ds item st) (dispatch_items dir actor t ds items)
            e in
        ground (
          arith,
          dispatch_item-IsCovered item st first,
          units_sent-dispatch_items_other items mid t.id item.product rest,
          dispatch_item-IsUnsent item st items first,
          dispatch_items-IsCovered items mid rest,
        )
