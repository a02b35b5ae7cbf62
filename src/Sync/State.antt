-- ===== src/Sync/State.antt =====
-- The tables of sync batches and their operations (prisma/schema.prisma), and the request
-- (src/modules/offline-sync/dto/offline-sync.dto.ts).
use technova_pos_api.Prelude.Text.{Text}
use technova_pos_api.Prelude.{List, Option, Bool, ℕ}
use technova_pos_api.Sales.State as Till
use technova_pos_api.Sales.State.{SaleRequest}
use technova_pos_api.Prelude.Result.{Result}

-- `operationType`: the one that is supported, or another text.
pub data OperationType : Type 0 where
  sale_create : OperationType
  other : Text → OperationType

-- `enum SyncBatchStatus`
pub data BatchStatus : Type 0 where
  received processing completed partially_failed failed : BatchStatus

-- `enum SyncOperationStatus`
pub data OperationStatus : Type 0 where
  pending applied rejected : OperationStatus

-- What the service needs of JSON values and of the libraries that read them: whether
-- `JSON.stringify` gives two values one text; the value that comes back from a column of type
-- `jsonb`, where the keys of objects stand in the order of the database; and `plainToInstance` with
-- `validate`, which make a sale request of a payload.
pub record Json (P : Type 0) : Type 0 where
  pub same_text : P → P → Bool
  pub stored : P → P
  pub decode : P → Result SaleRequest

pub record OperationInput (P : Type 0) : Type 0 where
  pub client_id : ℕ
  pub kind : OperationType
  pub timestamp : ℕ
  pub payload : P

pub record BatchInput (P : Type 0) : Type 0 where
  pub client_id : ℕ
  pub device : ℕ
  pub operations : List (OperationInput P)

-- `sale` is the id in the response of an operation that was applied.
pub record Operation (P : Type 0) : Type 0 where
  pub client_id : ℕ
  pub kind : OperationType
  pub timestamp : ℕ
  pub payload : P
  pub status : OperationStatus
  pub sale : Option ℕ
  pub error_code : Option ℕ
  pub processed_at : Option ℕ

pub record Batch (P : Type 0) : Type 0 where
  pub id : ℕ
  pub user : ℕ
  pub client_id : ℕ
  pub device : ℕ
  pub status : BatchStatus
  pub completed_at : Option ℕ
  pub operations : List (Operation P)

-- The batches, and the tables of the till.
pub record State (P : Type 0) : Type 0 where
  pub batches : List (Batch P)
  pub till : Till.State
