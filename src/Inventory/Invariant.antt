-- ===== src/Inventory/Invariant.antt =====
-- The invariant of the stock service under `adjust` and `createTransfer`.
use technova_pos_api.Prelude.{
  ℕ, suc, ◌≡◌, refl, inl, inr, false, List, [], ◌∷◌, map, arith, Option-cases, All, All-map,
  contains,
}
use technova_pos_api.Prelude.Int.{ℤ, pos, negsuc}
use technova_pos_api.Prelude.Result.{ok}
use technova_pos_api.Directory.{Directory, User}
use technova_pos_api.Stock.{Stock, StockMovement, take_level}
use technova_pos_api.Inventory.State.{State, StockTransfer, TransferItem}
use technova_pos_api.Inventory.Adjust.{Adjustment, adjust_stock, adjust}
use technova_pos_api.Inventory.Transfer.{
  TransferRequest, RequestItem, new_item, new_transfer, has_duplicates, create_transfer,
}
use technova_pos_api.Inventory.Receive.{units_sent}
use technova_pos_api.Inventory.Trace.{IsUnsent}
use technova_pos_api.Inventory.Balance.{adjust-Keeps, adjust-adjust_stock}
use technova_pos_api.Inventory.Sound.{
  IsMoved, IsSound-IsMoved, IsLinked, IsSound, IsTraced, IsTraced-same, ids,
}

units_sent-adjust_stock :
    (actor : User) (dto : Adjustment) (delta : ℤ) (st : Stock) {st' : Stock} (id q : ℕ)
    → adjust_stock actor dto delta st ≡ ok st'
    → units_sent id q st'.movements ≡ units_sent id q st.movements
unfolding adjust_stock units_sent
units_sent-adjust_stock actor dto (pos n) st id q e = ground arith
units_sent-adjust_stock actor dto (negsuc n) st id q e =
    elim (Option-cases (take_level dto.branch dto.product (suc n) st.levels)) [
      | inl refused ↦ ground arith
      | inr (left, taken) ↦ ground arith
    ]

adjust-rest :
    (dir : Directory) (actor : User) (dto : Adjustment) (st : State) {st' : State}
    → adjust dir actor dto st ≡ ok st'
    → st'.transfers ≡ st.transfers
unfolding adjust
adjust-rest dir actor dto st e = ground arith

-- Another log that shows the same units keeps every transfer traced.
All-IsTraced-same :
    (ms ms' : List StockMovement)
    → ((id q : ℕ) → units_sent id q ms' ≡ units_sent id q ms)
    → (ts : List StockTransfer) → All (IsTraced ms) ts
    → All (IsTraced ms') ts
All-IsTraced-same ms ms' same = All-map (λ t. IsTraced-same ms ms' t (same t.id))

pub adjust-IsMoved :
    (dir : Directory) (actor : User) (dto : Adjustment) (st : State) {st' : State}
    → adjust dir actor dto st ≡ ok st'
    → IsLinked st
    → IsMoved st st'
adjust-IsMoved dir actor dto st {st'} e h =
    let changed = adjust-adjust_stock dir actor dto st e in
    record {
      kept = adjust-Keeps dir actor dto st e;
      linked = record {
        traced = rw (adjust-rest dir actor dto st e) (
            All-IsTraced-same st.stock.movements st'.stock.movements
              (λ id q. units_sent-adjust_stock actor dto dto.delta st.stock id q changed)
              st.transfers h.traced);
        unique = rw (adjust-rest dir actor dto st e) h.unique;
      };
    }

pub adjust-IsSound :
    (opening : ℕ → ℕ → ℕ) (dir : Directory) (actor : User) (dto : Adjustment) (st : State)
    {st' : State}
    → adjust dir actor dto st ≡ ok st'
    → IsSound opening st
    → IsSound opening st'
adjust-IsSound opening dir actor dto st {st'} e h =
    IsSound-IsMoved opening st st' (adjust-IsMoved dir actor dto st e) h

products-new_item :
    (items : List RequestItem)
    → map (λ i. i.product) (map new_item items) ≡ map (λ i. i.product) items
products-new_item [] = refl
products-new_item (i ∷ items) = cc (products-new_item items)

IsUnsent-fresh :
    (id : ℕ) (ms : List StockMovement)
    → ((q : ℕ) → units_sent id q ms ≡ [])
    → (items : List TransferItem) → All (IsUnsent id ms) items
IsUnsent-fresh id ms fresh [] = tt
IsUnsent-fresh id ms fresh (i ∷ items) = (fresh i.product, IsUnsent-fresh id ms fresh items)

create_transfer-changes :
    (dir : Directory) (new_id : ℕ) (actor : User) (dto : TransferRequest) (st : State) {st' : State}
    → create_transfer dir new_id actor dto st ≡ ok st'
    → (has_duplicates (map (λ i. i.product) dto.items) ≡ false)
      × (st'.stock ≡ st.stock)
      × (st'.transfers ≡ new_transfer new_id dto ∷ st.transfers)
unfolding create_transfer
create_transfer-changes dir new_id actor dto st e = ground arith

-- An id that no transfer and no movement has yet.
pub record IsFresh (id : ℕ) (st : State) : Type 0 where
  pub unused : contains id (ids st.transfers) ≡ false
  pub unlogged : (q : ℕ) → units_sent id q st.stock.movements ≡ []

pub create_transfer-IsMoved :
    (dir : Directory) (new_id : ℕ) (actor : User) (dto : TransferRequest) (st : State) {st' : State}
    → create_transfer dir new_id actor dto st ≡ ok st'
    → IsFresh new_id st
    → IsLinked st
    → IsMoved st st'
unfolding has_duplicates
create_transfer-IsMoved dir new_id actor dto st {st'} e fresh h =
    let (distinct, stock, transfers) = create_transfer-changes dir new_id actor dto st e in
    record {
      kept = rw stock (λ b p. refl);
      linked = record {
        traced =
            rw (stock, transfers)
              (
                record {
                  held =
                      IsUnsent-fresh new_id st.stock.movements fresh.unlogged
                        (map new_item dto.items);
                  distinct = rw (products-new_item dto.items) distinct;
                },
                h.traced,
              );
        unique = rw (transfers, fresh.unused) h.unique;
      };
    }

pub create_transfer-IsSound :
    (opening : ℕ → ℕ → ℕ) (dir : Directory) (new_id : ℕ) (actor : User) (dto : TransferRequest)
    (st : State) {st' : State}
    → create_transfer dir new_id actor dto st ≡ ok st'
    → IsFresh new_id st
    → IsSound opening st
    → IsSound opening st'
create_transfer-IsSound opening dir new_id actor dto st {st'} e fresh h =
    IsSound-IsMoved opening st st' (create_transfer-IsMoved dir new_id actor dto st e fresh) h
