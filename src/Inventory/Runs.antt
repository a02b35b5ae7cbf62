-- ===== src/Inventory/Runs.antt =====
-- Any sequence of successful requests to the stock service.
use technova_pos_api.Prelude.{ℕ, ◌≡◌, List}
use technova_pos_api.Prelude.Result.{ok}
use technova_pos_api.Directory.{Directory, User}
use technova_pos_api.Inventory.State.{State}
use technova_pos_api.Inventory.Adjust.{Adjustment, adjust}
use technova_pos_api.Inventory.Transfer.{TransferRequest, create_transfer}
use technova_pos_api.Inventory.Dispatch.{DispatchSerials, dispatch}
use technova_pos_api.Inventory.Receive.{receive}
use technova_pos_api.Inventory.Invariant.{IsFresh}

-- One successful request, by any user at any time; the directory is fixed. The database gives a
-- new transfer an id that is not in use.
pub data Step (dir : Directory) (s t : State) : Type 0 where
  adjusting : (actor : User) (dto : Adjustment) → adjust dir actor dto s ≡ ok t → Step dir s t
  creating :
      (new_id : ℕ) (actor : User) (dto : TransferRequest)
      → IsFresh new_id s
      → create_transfer dir new_id actor dto s ≡ ok t
      → Step dir s t
  dispatching :
      (now : ℕ) (actor : User) (id : ℕ) (ds : List DispatchSerials)
      → dispatch dir now actor id ds s ≡ ok t
      → Step dir s t
  receiving : (now : ℕ) (actor : User) (id : ℕ) → receive dir now actor id s ≡ ok t → Step dir s t

pub data Reach (dir : Directory) (s : State) : State → Type 0 where
  here : Reach dir s s
  next : {t u : State} → Reach dir s t → Step dir t u → Reach dir s u
