-- ===== src/Inventory/Sound.antt =====
-- The invariant of the stock service, on the quantities, the movement log, and the units of the
-- transfers that are on their way.
use technova_pos_api.Prelude.{
  ℕ, ◌≡◌, ◌≢◌, refl, false, none, some, List, [], ◌∷◌, map, arith, All, All-map, contains, find,
  ◌==◌, ◌&&◌,
}
use technova_pos_api.Directory.{Directory}
use technova_pos_api.Stock.{StockMovement}
use technova_pos_api.Stock.Ledger.{Reconciles, Keeps, Reconciles-Keeps}
use technova_pos_api.Inventory.State.{
  State, StockTransfer, TransferItem, TransferStatus, update_transfer, sent_by,
}
use technova_pos_api.Inventory.Transfer.{has_duplicates}
use technova_pos_api.Inventory.Receive.{units_sent}
use technova_pos_api.Inventory.Arrival.{IsCovered}
use technova_pos_api.Inventory.Trace.{IsUnsent}

-- What the log holds of the units of a transfer, by its status.
abbrev pub Holds : ℕ → List StockMovement → List TransferItem → TransferStatus → Type 0
Holds id ms items TransferStatus.in_transit = All (IsCovered id ms) items
Holds id ms items TransferStatus.received = Unit
Holds id ms items TransferStatus.cancelled = Unit
Holds id ms items _ = All (IsUnsent id ms) items

pub record IsTraced (ms : List StockMovement) (t : StockTransfer) : Type 0 where
  pub held : Holds t.id ms t.items t.status
  pub distinct : has_duplicates (map (λ i. i.product) t.items) ≡ false

abbrev pub ids : List StockTransfer → List ℕ
ids = map (λ t. t.id)

pub record IsSound (opening : ℕ → ℕ → ℕ) (st : State) : Type 0 where
  pub reconciled : Reconciles opening st.stock
  pub traced : All (IsTraced st.stock.movements) st.transfers
  pub unique : has_duplicates (ids st.transfers) ≡ false

-- The part of it that is about transfers.
pub record IsLinked (st : State) : Type 0 where
  pub traced : All (IsTraced st.stock.movements) st.transfers
  pub unique : has_duplicates (ids st.transfers) ≡ false

-- A step whose movements explain the change of the quantities, and which keeps the transfers linked.
pub record IsMoved (st st' : State) : Type 0 where
  pub kept : Keeps st.stock st'.stock
  pub linked : IsLinked st'

pub IsSound-IsMoved :
    (opening : ℕ → ℕ → ℕ) (st st' : State)
    → (IsLinked st → IsMoved st st')
    → IsSound opening st
    → IsSound opening st'
IsSound-IsMoved opening st st' step h =
    let moved = step (record { traced = h.traced; unique = h.unique }) in
    record {
      reconciled = Reconciles-Keeps opening st.stock st'.stock moved.kept h.reconciled;
      traced = moved.linked.traced;
      unique = moved.linked.unique;
    }

-- Where the log shows the same units for a transfer, it is traced as before.
pub Holds-same :
    (id : ℕ) (ms ms' : List StockMovement)
    → ((q : ℕ) → units_sent id q ms' ≡ units_sent id q ms)
    → (items : List TransferItem) (s : TransferStatus) → Holds id ms items s
    → Holds id ms' items s
Holds-same id ms ms' same items TransferStatus.in_transit h =
    All-map (λ i c. rw (same i.product) c) items h
Holds-same id ms ms' same items TransferStatus.received h = tt
Holds-same id ms ms' same items TransferStatus.cancelled h = tt
Holds-same id ms ms' same items TransferStatus.draft h =
    All-map (λ i c. rw (same i.product) c) items h
Holds-same id ms ms' same items TransferStatus.submitted h =
    All-map (λ i c. rw (same i.product) c) items h

pub IsTraced-same :
    (ms ms' : List StockMovement) (t : StockTransfer)
    → ((q : ℕ) → units_sent t.id q ms' ≡ units_sent t.id q ms)
    → IsTraced ms t
    → IsTraced ms' t
IsTraced-same ms ms' t same h = record {
  held = Holds-same t.id ms ms' same t.items t.status h.held;
  distinct = h.distinct;
}

-- The rows that an update of the transfer `id` leaves alone.
module _ (ms ms' : List StockMovement) (id : ℕ) (f : StockTransfer → StockTransfer) where
  update_others :
      (ts : List StockTransfer)
      → ((t : StockTransfer) → t.id ≢ id → IsTraced ms t → IsTraced ms' t)
      → contains id (ids ts) ≡ false
      → All (IsTraced ms) ts
      → All (IsTraced ms') (update_transfer id f ts)
  update_others [] keep new h = tt
  update_others (t ∷ ts) keep new h = ground (arith, keep t, update_others ts keep)

  find_absent :
      (dir : Directory) (org : ℕ) (ts : List StockTransfer)
      → contains id (ids ts) ≡ false
      → find (λ x. x.id == id && sent_by dir org x) ts ≡ none
  find_absent dir org [] new = refl
  find_absent dir org (t ∷ ts) new = ground (arith, find_absent dir org ts)

  -- The found row is the one that is changed.
  pub update_found :
      (dir : Directory) (org : ℕ) (ts : List StockTransfer) {t : StockTransfer}
      → ((x : StockTransfer) → x.id ≢ id → IsTraced ms x → IsTraced ms' x)
      → find (λ x. x.id == id && sent_by dir org x) ts ≡ some t
      → has_duplicates (ids ts) ≡ false
      → (IsTraced ms t → IsTraced ms' (f t))
      → All (IsTraced ms) ts
      → All (IsTraced ms') (update_transfer id f ts)
  unfolding has_duplicates
  update_found dir org [] {t} keep found unique changed h = tt
  update_found dir org (x ∷ xs) {t} keep found unique changed h = ground (
    arith,
    keep x,
    find_absent dir org xs,
    update_others xs keep,
    update_found dir org xs {t = t} keep,
  )
