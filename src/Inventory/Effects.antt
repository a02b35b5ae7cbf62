-- ===== src/Inventory/Effects.antt =====
-- What the operations of the stock service do to the quantities on hand.
use technova_pos_api.Inventory.Shipping.{dispatch-changes, receive-changes}
use technova_pos_api.Stock.{put_stock}
use technova_pos_api.Prelude.{
  ◌∙◌, ap, true, some, find, ℕ, suc, ◌+◌, ◌≡◌, refl, inl, inr, List, [], ◌∷◌, ◌==◌, ◌&&◌,
  if◌then◌else◌, arith, sum_of, Option-cases,
}
use technova_pos_api.Prelude.Int.{ℤ, pos, negsuc}
use technova_pos_api.Prelude.Result.{or_raise-ok, ok, >>=-eq-ok}
use technova_pos_api.Prelude.Text.{Text}
use technova_pos_api.Directory.{organization_id, Directory, User}
use technova_pos_api.Stock.{Stock, take_level, InventoryUnit}
use technova_pos_api.Stock.Ledger.{on_hand, on_hand-take_level, on_hand-put_level}
use technova_pos_api.Inventory.State.{
  update_transfer, sent_by, is_submitted, is_in_transit, find_transfer, State, StockTransfer,
  TransferItem,
}
use technova_pos_api.Inventory.Adjust.{Adjustment, adjust, adjust_stock}
use technova_pos_api.Inventory.Dispatch.{
  dispatch, DispatchSerials, dispatch_items, dispatch_item, send_units, serials_of, reserve_units,
  units_on_shelf,
}
use technova_pos_api.Inventory.Receive.{
  units_sent, receive, receive_items, receive_item, take_in, shelve_units,
}
use technova_pos_api.Inventory.Balance.{adjust-adjust_stock}

-- The two directions of a difference.
abbrev pub added : ℤ → ℕ
added (pos n) = n
added (negsuc n) = 0

abbrev pub removed : ℤ → ℕ
removed (pos n) = 0
removed (negsuc n) = suc n

adjust_stock-on_hand :
    (actor : User) (dto : Adjustment) (delta : ℤ) (st : Stock) {st' : Stock} (b p : ℕ)
    → adjust_stock actor dto delta st ≡ ok st'
    → let here = dto.branch == b && dto.product == p in
      on_hand b p st'.levels + (if here then removed delta else 0)
      ≡ on_hand b p st.levels + (if here then added delta else 0)
unfolding adjust_stock
adjust_stock-on_hand actor dto (pos q) st b p e =
    ground (arith, on_hand-put_level dto.branch dto.product q b p st.levels)
adjust_stock-on_hand actor dto (negsuc n) st b p e =
    elim (Option-cases (take_level dto.branch dto.product (suc n) st.levels)) [
      | inl refused ↦ ground arith
      | inr (left, taken) ↦
          ground (arith, on_hand-take_level dto.branch dto.product (suc n) b p st.levels taken)
    ]

-- An accepted adjustment changes the quantity on hand of its product at its branch by exactly the
-- requested difference, up or down, and no other quantity. As quantities are natural numbers, a
-- difference that would leave less than nothing is never accepted.
pub adjust-on_hand :
    (dir : Directory) (actor : User) (dto : Adjustment) (st : State) {st' : State} (b p : ℕ)
    → adjust dir actor dto st ≡ ok st'
    → let here = dto.branch == b && dto.product == p in
      on_hand b p st'.stock.levels + (if here then removed dto.delta else 0)
      ≡ on_hand b p st.stock.levels + (if here then added dto.delta else 0)
adjust-on_hand dir actor dto st b p e =
    adjust_stock-on_hand actor dto dto.delta st.stock b p (adjust-adjust_stock dir actor dto st e)

-- What a transfer takes along of a product.
abbrev pub sent_quantity : ℕ → List TransferItem → ℕ
sent_quantity p = sum_of (λ i. if i.product == p then i.quantity else 0)

module _ (actor : User) (t : StockTransfer) where
  levels-reserve_units :
      (p : ℕ) (us : List InventoryUnit) (st : Stock)
      → (reserve_units actor t p us st).levels ≡ st.levels
  unfolding reserve_units
  levels-reserve_units p [] st = refl
  levels-reserve_units p (u ∷ us) st = levels-reserve_units p us _

  levels-send_units :
      (item : TransferItem) (ss : List Text) (st : Stock) {st' : Stock}
      → send_units actor t item ss st ≡ ok st'
      → st'.levels ≡ st.levels
  unfolding send_units
  levels-send_units item [] st e = ground arith
  levels-send_units item (s ∷ ss) st e = ground (
    arith,
    levels-reserve_units item.product (units_on_shelf t.source item.product (s ∷ ss) st.units) st,
  )

  levels-shelve_units :
      (p : ℕ) (us : List ℕ) (st : Stock) → (shelve_units actor t p us st).levels ≡ st.levels
  unfolding shelve_units
  levels-shelve_units p [] st = refl
  levels-shelve_units p (u ∷ us) st = levels-shelve_units p us _

  levels-take_in :
      (item : TransferItem) (us : List ℕ) (st : Stock)
      → (take_in actor t item us st).levels ≡ st.levels
  unfolding take_in
  levels-take_in item [] st = refl
  levels-take_in item (u ∷ us) st = levels-shelve_units item.product (u ∷ us) st

  receive_items-on_hand :
      (items : List TransferItem) (st : Stock) (b p : ℕ)
      → on_hand b p (receive_items actor t items st).levels
        ≡ on_hand b p st.levels + (if t.destination == b then sent_quantity p items else 0)
  unfolding receive_items receive_item
  receive_items-on_hand [] st b p = ground arith
  receive_items-on_hand (item ∷ items) st b p = ground (
    arith,
    receive_items-on_hand items (receive_item actor t item st) b p,
    levels-take_in item (units_sent t.id item.product st.movements)
        (put_stock t.destination item.product item.quantity st),
    on_hand-put_level t.destination item.product item.quantity b p st.levels,
  )

  dispatch_items-on_hand :
      (dir : Directory) (ds : List DispatchSerials) (items : List TransferItem) (st : Stock)
      {st' : Stock} (b p : ℕ)
      → dispatch_items dir actor t ds items st ≡ ok st'
      → on_hand b p st'.levels + (if t.source == b then sent_quantity p items else 0)
        ≡ on_hand b p st.levels
  unfolding dispatch_items dispatch_item
  dispatch_items-on_hand dir ds [] st b p e = ground arith
  dispatch_items-on_hand dir ds (item ∷ items) st {st'} b p e =
      let (mid, first, rest) =
        >>=-eq-ok (dispatch_item dir actor t ds item st) (dispatch_items dir actor t ds items) e in
      let others = dispatch_items-on_hand dir ds items mid b p rest in
      elim (Option-cases (take_level t.source item.product item.quantity st.levels)) [
        | inl refused ↦ ground arith
        | inr (left, taken) ↦ ground (
          arith,
          others,
          levels-send_units item (serials_of item.product ds) (record st { levels = left })
              {st' = mid},
          on_hand-take_level t.source item.product item.quantity b p st.levels taken,
        )
      ]

-- A dispatch takes from the source branch just what the transfer asks for, and nothing elsewhere.
-- The transfer that it ships had been submitted; it is the one that the id names to the user's
-- organization.
pub dispatch-on_hand :
    (dir : Directory) (now : ℕ) (actor : User) (id : ℕ) (ds : List DispatchSerials) (st : State)
    {st' : State}
    → dispatch dir now actor id ds st ≡ ok st'
    → (t : StockTransfer) × (find_transfer dir actor.id id st.transfers ≡ ok t)
      × (is_submitted t.status ≡ true)
      × ((b p : ℕ)
          → on_hand b p st'.stock.levels + (if t.source == b then sent_quantity p t.items else 0)
            ≡ on_hand b p st.stock.levels)
dispatch-on_hand dir now actor id ds st e =
    let (t, found, open_t, sent, _) = dispatch-changes dir now actor id ds st e in
    (t, found, open_t, λ b p. dispatch_items-on_hand actor t dir ds t.items st.stock b p sent)

-- A receipt adds to the destination branch just what the transfer asks for, and nothing elsewhere.
-- The transfer had been dispatched and not received.
pub receive-on_hand :
    (dir : Directory) (now : ℕ) (actor : User) (id : ℕ) (st : State) {st' : State}
    → receive dir now actor id st ≡ ok st'
    → (t : StockTransfer) × (find_transfer dir actor.id id st.transfers ≡ ok t)
      × (is_in_transit t.status ≡ true)
      × ((b p : ℕ)
          → on_hand b p st'.stock.levels
            ≡ on_hand b p st.stock.levels
              + (if t.destination == b then sent_quantity p t.items else 0))
receive-on_hand dir now actor id st {st'} e =
    let (t, found, on_way, stock, _) = receive-changes dir now actor id st e in
    (
      t,
      found,
      on_way,
      λ b p.
          ap (λ (x : Stock). on_hand b p x.levels) stock
          ∙ receive_items-on_hand actor t t.items st.stock b p,
    )

find_updated :
    (dir : Directory) (org id : ℕ) (f : StockTransfer → StockTransfer) (ts : List StockTransfer)
    {t : StockTransfer}
    → ((x : StockTransfer) → ((f x).id ≡ x.id) × ((f x).source ≡ x.source))
    → find (λ x. x.id == id && sent_by dir org x) ts ≡ some t
    → find (λ x. x.id == id && sent_by dir org x) (update_transfer id f ts) ≡ some (f t)
find_updated dir org id f [] same e = cc
find_updated dir org id f (x ∷ xs) {t} same e =
    ground (arith, same x, find_updated dir org id f xs {t = t} same)

-- The row that the update leaves is the row that is found, changed.
pub find_transfer-update :
    (dir : Directory) (user id : ℕ) (f : StockTransfer → StockTransfer) (ts : List StockTransfer)
    {t : StockTransfer}
    → ((x : StockTransfer) → ((f x).id ≡ x.id) × ((f x).source ≡ x.source))
    → find_transfer dir user id ts ≡ ok t
    → find_transfer dir user id (update_transfer id f ts) ≡ ok (f t)
unfolding find_transfer
find_transfer-update dir user id f ts {t} same e =
    let (org, known, found) = >>=-eq-ok (organization_id dir user) _ e in
    let row = or_raise-ok (find (λ x. x.id == id && sent_by dir org x) ts) _ found in
    rw (known, find_updated dir org id f ts same row) refl
