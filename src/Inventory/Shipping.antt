-- ===== src/Inventory/Shipping.antt =====
-- The invariant of the stock service under `dispatch` and `receive`.
use technova_pos_api.Prelude.{
  ℕ, ◌≡◌, refl, inl, inr, Bool, true, some, List, [], ◌∷◌, map, arith, Bool-cases, All, find,
  find-test, ◌∙◌, ◌==◌, ◌&&◌,
}
use technova_pos_api.Prelude.Result.{ok, >>=-eq-ok, or_raise-ok}
use technova_pos_api.Directory.{Directory, User, organization_id}
use technova_pos_api.Stock.{Stock, StockMovement}
use technova_pos_api.Inventory.State.{
  State, StockTransfer, TransferItem, TransferStatus, update_transfer, find_transfer, sent_by,
  is_submitted, is_in_transit,
}
use technova_pos_api.Inventory.Dispatch.{DispatchSerials, dispatch_items, dispatch}
use technova_pos_api.Inventory.Receive.{
  units_sent, receive_items, receive_item, receive, mark_received,
}
use technova_pos_api.Inventory.Arrival.{IsCovered, receive_items-Keeps, units_sent-receive_item}
use technova_pos_api.Inventory.Trace.{
  IsUnsent, units_sent-dispatch_items_other, dispatch_items-IsCovered,
}
use technova_pos_api.Inventory.Balance.{dispatch_items-Keeps}
use technova_pos_api.Inventory.Sound.{
  IsMoved, IsSound-IsMoved, IsLinked, IsSound, IsTraced, IsTraced-same, Holds, ids, update_found,
}

ids-update_transfer :
    (id : ℕ) (f : StockTransfer → StockTransfer)
    → ((t : StockTransfer) → (f t).id ≡ t.id)
    → (ts : List StockTransfer) → ids (update_transfer id f ts) ≡ ids ts
ids-update_transfer id f same [] = refl
ids-update_transfer id f same (t ∷ ts) = ground (arith, same t, ids-update_transfer id f same ts)

find_transfer-found :
    (dir : Directory) (user id : ℕ) (ts : List StockTransfer) {t : StockTransfer}
    → find_transfer dir user id ts ≡ ok t
    → (org : ℕ) × (find (λ x. x.id == id && sent_by dir org x) ts ≡ some t) × (t.id ≡ id)
unfolding find_transfer
find_transfer-found dir user id ts {t} e =
    let (org, known, found) = >>=-eq-ok (organization_id dir user) _ e in
    let row = or_raise-ok (find (λ x. x.id == id && sent_by dir org x) ts) _ found in
    (org, row, ground (arith, find-test (λ x. x.id == id && sent_by dir org x) ts row))

-- The transfer as `dispatch` leaves it.
abbrev pub dispatched : ℕ → StockTransfer → StockTransfer
dispatched now x = record x { status = TransferStatus.in_transit; dispatched_at = some now }

pub dispatch-changes :
    (dir : Directory) (now : ℕ) (actor : User) (id : ℕ) (ds : List DispatchSerials) (st : State)
    {st' : State}
    → dispatch dir now actor id ds st ≡ ok st'
    → (t : StockTransfer) × (find_transfer dir actor.id id st.transfers ≡ ok t)
      × (is_submitted t.status ≡ true)
      × (dispatch_items dir actor t ds t.items st.stock ≡ ok st'.stock)
      × (st'.transfers ≡ update_transfer id (dispatched now) st.transfers)
unfolding dispatch
dispatch-changes dir now actor id ds st {st'} e =
    let (t, found, rest) = >>=-eq-ok (find_transfer dir actor.id id st.transfers) _ e in
    (t, found, ground arith, ground arith, ground arith)

-- The items of a submitted transfer have not been sent.
Holds-submitted :
    (ms : List StockMovement) (id : ℕ) (items : List TransferItem) (s : TransferStatus)
    → is_submitted s ≡ true
    → Holds id ms items s
    → All (IsUnsent id ms) items
Holds-submitted ms id items TransferStatus.submitted e h = h
Holds-submitted ms id items TransferStatus.draft e h = h
Holds-submitted ms id items TransferStatus.in_transit e h = cc
Holds-submitted ms id items TransferStatus.received e h = cc
Holds-submitted ms id items TransferStatus.cancelled e h = cc

pub dispatch-IsMoved :
    (dir : Directory) (now : ℕ) (actor : User) (id : ℕ) (ds : List DispatchSerials) (st : State)
    {st' : State}
    → dispatch dir now actor id ds st ≡ ok st'
    → IsLinked st
    → IsMoved st st'
dispatch-IsMoved dir now actor id ds st {st'} e h =
    let (t, found, open_t, sent, transfers) = dispatch-changes dir now actor id ds st e in
    let (org, row, is_id) = find_transfer-found dir actor.id id st.transfers found in
    let ms = st.stock.movements in
    let ms' = st'.stock.movements in
    record {
      kept = dispatch_items-Keeps dir actor t ds t.items st.stock sent;
      linked = record {
        traced = rw transfers (
            update_found ms ms' id (dispatched now) dir org st.transfers
              (λ x other traced.
                IsTraced-same ms ms' x
                  (λ q.
                    units_sent-dispatch_items_other actor t dir ds t.items st.stock x.id q sent
                      (inl (λ same. other (same ∙ is_id))))
                  traced)
              row h.unique
              (λ traced. record {
                held =
                    dispatch_items-IsCovered actor t dir ds t.items st.stock sent traced.distinct
                      (Holds-submitted ms t.id t.items t.status open_t traced.held);
                distinct = traced.distinct;
              })
              h.traced);
        unique =
            rw (transfers, ids-update_transfer id (dispatched now) (λ x. refl) st.transfers)
              h.unique;
      };
    }

pub dispatch-IsSound :
    (opening : ℕ → ℕ → ℕ) (dir : Directory) (now : ℕ) (actor : User) (id : ℕ)
    (ds : List DispatchSerials) (st : State) {st' : State}
    → dispatch dir now actor id ds st ≡ ok st'
    → IsSound opening st
    → IsSound opening st'
dispatch-IsSound opening dir now actor id ds st {st'} e h =
    IsSound-IsMoved opening st st' (dispatch-IsMoved dir now actor id ds st e) h

-- The transfer as `receive` leaves it.
abbrev pub completed : ℕ → StockTransfer → StockTransfer
completed now x = record x {
  status = TransferStatus.received;
  received_at = some now;
  items = map mark_received x.items;
}

pub receive-changes :
    (dir : Directory) (now : ℕ) (actor : User) (id : ℕ) (st : State) {st' : State}
    → receive dir now actor id st ≡ ok st'
    → (t : StockTransfer) × (find_transfer dir actor.id id st.transfers ≡ ok t)
      × (is_in_transit t.status ≡ true)
      × (st'.stock ≡ receive_items actor t t.items st.stock)
      × (st'.transfers ≡ update_transfer id (completed now) st.transfers)
unfolding receive
receive-changes dir now actor id st {st'} e =
    let (t, found, rest) = >>=-eq-ok (find_transfer dir actor.id id st.transfers) _ e in
    (t, found, ground arith, ground arith, ground arith)

-- `receive` changes no row that `units_sent` reads.
units_sent-receive_items :
    (actor : User) (t : StockTransfer) (items : List TransferItem) (st : Stock) (id q : ℕ)
    → units_sent id q (receive_items actor t items st).movements ≡ units_sent id q st.movements
unfolding receive_items
units_sent-receive_items actor t [] st id q = refl
units_sent-receive_items actor t (item ∷ items) st id q =
    units_sent-receive_items actor t items (receive_item actor t item st) id q
    ∙ units_sent-receive_item actor t item st id q

products-mark_received :
    (items : List TransferItem)
    → map (λ i. i.product) (map mark_received items) ≡ map (λ i. i.product) items
products-mark_received [] = refl
products-mark_received (i ∷ items) = cc (products-mark_received items)

Holds-in_transit :
    (ms : List StockMovement) (id : ℕ) (items : List TransferItem) (s : TransferStatus)
    → is_in_transit s ≡ true
    → Holds id ms items s
    → All (IsCovered id ms) items
Holds-in_transit ms id items TransferStatus.in_transit e h = h
Holds-in_transit ms id items TransferStatus.draft e h = cc
Holds-in_transit ms id items TransferStatus.submitted e h = cc
Holds-in_transit ms id items TransferStatus.received e h = cc
Holds-in_transit ms id items TransferStatus.cancelled e h = cc

-- The row that `find` returns has what all rows have.
find-IsTraced :
    (ms : List StockMovement) (test : StockTransfer → Bool) (ts : List StockTransfer)
    {t : StockTransfer}
    → find test ts ≡ some t
    → All (IsTraced ms) ts
    → IsTraced ms t
find-IsTraced ms test [] e h = cc
find-IsTraced ms test (x ∷ xs) {t} e h = elim (Bool-cases (test x)) [
  | inl yes_x ↦ let same : x ≡ t = ground arith in rw (← same) h.0
  | inr no_x ↦ find-IsTraced ms test xs (ground arith) h.1
]

pub receive-IsMoved :
    (dir : Directory) (now : ℕ) (actor : User) (id : ℕ) (st : State) {st' : State}
    → receive dir now actor id st ≡ ok st'
    → IsLinked st
    → IsMoved st st'
receive-IsMoved dir now actor id st {st'} e h =
    let (t, found, on_way, stock, transfers) = receive-changes dir now actor id st e in
    let (org, row, is_id) = find_transfer-found dir actor.id id st.transfers found in
    let arrived = receive_items actor t t.items st.stock in
    let ms = st.stock.movements in
    let traced_t =
      find-IsTraced ms (λ x. x.id == id && sent_by dir org x) st.transfers row h.traced in
    let same = units_sent-receive_items actor t t.items st.stock in
    record {
      kept = rw stock (
          receive_items-Keeps actor t t.items st.stock
            (Holds-in_transit ms t.id t.items t.status on_way traced_t.held));
      linked = record {
        traced =
            rw (transfers, stock)
              (update_found ms arrived.movements id (completed now) dir org st.transfers
                (λ x other traced. IsTraced-same ms arrived.movements x (same x.id) traced) row
                h.unique
                (λ traced. record {
                  held = tt;
                  distinct = rw (products-mark_received t.items) traced.distinct;
                })
                h.traced);
        unique =
            rw (transfers, ids-update_transfer id (completed now) (λ x. refl) st.transfers)
              h.unique;
      };
    }

pub receive-IsSound :
    (opening : ℕ → ℕ → ℕ) (dir : Directory) (now : ℕ) (actor : User) (id : ℕ) (st : State)
    {st' : State}
    → receive dir now actor id st ≡ ok st'
    → IsSound opening st
    → IsSound opening st'
receive-IsSound opening dir now actor id st {st'} e h =
    IsSound-IsMoved opening st st' (receive-IsMoved dir now actor id st e) h
