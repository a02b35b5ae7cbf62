-- ===== src/System/Balance.antt =====
-- The balance of the stock over all services.
use technova_pos_api.Stock.Ledger.{incoming, outgoing, on_hand}
use technova_pos_api.Stock.{Stock}
use technova_pos_api.Inventory.Sound.{IsLinked}
use technova_pos_api.Directory.{Directory}
use technova_pos_api.Prelude.{◌≡◌, ◌+◌, ℕ}
use technova_pos_api.Inventory.State.{State as Warehouse}
use technova_pos_api.Sales.State.{Shop}
use technova_pos_api.System.Steps.{for_inventory, State, Step}

-- Any number of requests; the function adds up what came back as serialized units.
pub data Reach (shop : Shop) (dir : Directory) (s : State) : (ℕ → ℕ → ℕ) → State → Type 0 where
  here : Reach shop dir s (λ b p. 0) s
  next :
      {past units : ℕ → ℕ → ℕ} {t u : State}
      → Reach shop dir s past t
      → Step shop dir t units u
      → Reach shop dir s (λ b p. past b p + units b p) u

-- What every step keeps: the quantities and the log, up to what only came back marked, and the
-- links between transfers and the log.
record IsStep (units : ℕ → ℕ → ℕ) (s t : State) : Type 0 where
  shifted :
      (b p : ℕ)
      → on_hand b p t.stock.levels
          + outgoing b p t.stock.movements
          + incoming b p s.stock.movements
          + units b p
        ≡ on_hand b p s.stock.levels
          + outgoing b p s.stock.movements
          + incoming b p t.stock.movements
  linked : IsLinked (for_inventory t)

-- The balance of the stock after any requests to the four services.
pub record IsBalanced (opening units : ℕ → ℕ → ℕ) (s : State) : Type 0 where
  pub balance :
      (b p : ℕ)
      → on_hand b p s.stock.levels + outgoing b p s.stock.movements + units b p
        ≡ opening b p + incoming b p s.stock.movements
  pub linked : IsLinked (for_inventory s)
