-- ===== src/System/Steps.antt =====
-- Requests to the four services that write the stock tables, in any order. Each service has its
-- other tables, and finds the stock as the last request left it.
use technova_pos_api.Prelude.{ℕ, ◌≡◌, List}
use technova_pos_api.Prelude.Result.{ok}
use technova_pos_api.Calendar.{Moment}
use technova_pos_api.Directory.{Directory, User}
use technova_pos_api.Stock.{Stock}
use technova_pos_api.Inventory.State.{State as Warehouse}
use technova_pos_api.Inventory.Adjust.{Adjustment, adjust}
use technova_pos_api.Inventory.Transfer.{TransferRequest, create_transfer}
use technova_pos_api.Inventory.Dispatch.{DispatchSerials, dispatch}
use technova_pos_api.Inventory.Receive as Arriving
use technova_pos_api.Inventory.Invariant.{IsFresh}
use technova_pos_api.Sales.State as Selling
use technova_pos_api.Sales.Checkout as Checkout
use technova_pos_api.Purchasing.State as Buying
use technova_pos_api.Purchasing.Prepare.{Entropy, ReceiptRequest}
use technova_pos_api.Purchasing.Receive as Receiving
use technova_pos_api.Returns.State as Returning
use technova_pos_api.Returns.Create as Refunding
use technova_pos_api.Returns.Goods.{units_back}

-- The tables of each service; the stock that stands in them is not read.
pub record State : Type 0 where
  pub stock : Stock
  pub inventory : Warehouse
  pub selling : Selling.State
  pub buying : Buying.State
  pub returning : Returning.State

-- The tables as a service finds them.
abbrev pub for_inventory : State → Warehouse
for_inventory s = record s.inventory { stock = s.stock }

abbrev pub for_selling : State → Selling.State
for_selling s = record s.selling { stock = s.stock }

abbrev pub for_buying : State → Buying.State
for_buying s = record s.buying { stock = s.stock }

abbrev pub for_returning : State → Returning.State
for_returning s = record s.returning { stock = s.stock }

-- The tables after a request to a service.
abbrev pub after_inventory : State → Warehouse → State
after_inventory s t = record s { inventory = t; stock = t.stock }

abbrev pub after_selling : State → Selling.State → State
after_selling s t = record s { selling = t; stock = t.stock }

abbrev pub after_buying : State → Buying.State → State
after_buying s t = record s { buying = t; stock = t.stock }

abbrev pub after_returning : State → Returning.State → State
after_returning s t = record s { returning = t; stock = t.stock }

-- A successful request, with the quantity of each product at each branch that comes back as a
-- serialized unit, which is logged and only marked.
pub data Step (shop : Selling.Shop) (dir : Directory) (s : State)
    : (ℕ → ℕ → ℕ) → State → Type 0 where
  adjusting :
      (actor : User) (dto : Adjustment) (t : Warehouse)
      → adjust dir actor dto (for_inventory s) ≡ ok t
      → Step shop dir s (λ b p. 0) (after_inventory s t)
  requesting :
      (new_id : ℕ) (actor : User) (dto : TransferRequest) (t : Warehouse)
      → IsFresh new_id (for_inventory s)
      → create_transfer dir new_id actor dto (for_inventory s) ≡ ok t
      → Step shop dir s (λ b p. 0) (after_inventory s t)
  dispatching :
      (now : ℕ) (actor : User) (id : ℕ) (ds : List DispatchSerials) (t : Warehouse)
      → dispatch dir now actor id ds (for_inventory s) ≡ ok t
      → Step shop dir s (λ b p. 0) (after_inventory s t)
  arriving :
      (now : ℕ) (actor : User) (id : ℕ) (t : Warehouse)
      → Arriving.receive dir now actor id (for_inventory s) ≡ ok t
      → Step shop dir s (λ b p. 0) (after_inventory s t)
  selling :
      (now : Moment) (sale : ℕ) (actor : User) (dto : Selling.SaleRequest) (t : Selling.State)
      → Checkout.create shop now sale actor dto (for_selling s) ≡ ok t
      → Step shop dir s (λ b p. 0) (after_selling s t)
  buying :
      (entropy : Entropy) (now new_id : ℕ) (actor : User) (id : ℕ) (dto : ReceiptRequest)
      (t : Buying.State)
      → Receiving.receive entropy dir now new_id actor id dto (for_buying s) ≡ ok t
      → Step shop dir s (λ b p. 0) (after_buying s t)
  returning :
      (now id : ℕ) (actor : User) (dto : Returning.ReturnRequest) (result : Refunding.ReturnResult)
      (t : Returning.State)
      → Refunding.create dir now id actor dto (for_returning s) ≡ ok (result, t)
      → Step shop dir s (units_back dir actor dto (for_returning s)) (after_returning s t)
