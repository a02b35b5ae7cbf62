-- ===== src/Inventory/State.antt =====
-- The tables that `InventoryService` writes (prisma/schema.prisma: StockTransfer,
-- StockTransferItem, and those of `Stock`).
use technova_pos_api.Prelude.{
  ℕ, Bool, ◌&&◌, Option, none, some, List, ◌∷◌, ◌==◌, String, find, update_many,
}
use technova_pos_api.Prelude.Result.{Result, or_raise, ◌>>=◌, not_found, lit}
use technova_pos_api.Prelude.Text.{Text}
use technova_pos_api.Directory.{Directory, User, AuditEvent, organization_id, find_branch}
use technova_pos_api.Stock.{Stock}

-- `enum TransferStatus`
pub data TransferStatus : Type 0 where
  draft submitted in_transit received cancelled : TransferStatus

abbrev pub is_submitted : TransferStatus → Bool
is_submitted TransferStatus.submitted = Bool.true
is_submitted _ = Bool.false

abbrev pub is_in_transit : TransferStatus → Bool
is_in_transit TransferStatus.in_transit = Bool.true
is_in_transit _ = Bool.false

pub record TransferItem : Type 0 where
  pub product : ℕ
  pub quantity : ℕ
  pub received_quantity : ℕ

pub record StockTransfer : Type 0 where
  pub id : ℕ
  pub source : ℕ
  pub destination : ℕ
  pub status : TransferStatus
  pub items : List TransferItem
  pub notes : Option Text
  pub dispatched_at : Option ℕ
  pub received_at : Option ℕ

pub record State : Type 0 where
  pub stock : Stock
  pub transfers : List StockTransfer
  pub audits : List AuditEvent

-- `audit.record`
abbrev pub audit : User → String → ℕ → List AuditEvent → List AuditEvent
audit actor action subject log =
    record { user = actor.id; action = action; subject = subject } ∷ log

-- `stockTransfer.update` where `id`
abbrev pub update_transfer :
    ℕ → (StockTransfer → StockTransfer) → List StockTransfer → List StockTransfer
update_transfer id f = update_many (λ t. t.id == id) f

abbrev pub sent_by : Directory → ℕ → StockTransfer → Bool
sent_by dir org t = elim (find_branch dir org t.source) [ none ↦ Bool.false | some _ ↦ Bool.true ]

-- `transfer`: a transfer is visible to the organization of its source branch.
unfoldable pub find_transfer : Directory → ℕ → ℕ → List StockTransfer → Result StockTransfer
find_transfer dir user id transfers = do
  org ← organization_id dir user
  or_raise (find (λ t. t.id == id && sent_by dir org t) transfers)
      (not_found (lit "Stock transfer not found."))
