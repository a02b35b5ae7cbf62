-- ===== src/Sync/Submit.antt =====
-- `OfflineSyncService.submit`, with `execute`, `status` and `byClientId`.
use technova_pos_api.Inventory.Transfer.{has_duplicates}
use technova_pos_api.Prelude.Text.{text_eq}
use technova_pos_api.Directory.{User}
use technova_pos_api.Sync.State.{
  State, BatchInput, OperationStatus, BatchStatus, OperationType, OperationInput, Operation, Json,
  Batch,
}
use technova_pos_api.Sales.State.{Shop}
use technova_pos_api.Calendar.{Moment}
use technova_pos_api.Prelude.{
  if◌then◌else◌, [], map, ◌∷◌, List, some, none, Option, ◌||◌, ◌&&◌, not, false, true, Bool, suc, ℕ,
  filter, all, any, find, length, ◌==◌,
}
use technova_pos_api.Sales.State as Till
use technova_pos_api.Sales.Checkout.{create}
use technova_pos_api.Prelude.Result.{
  conflict, raise_if, not_found, forbidden, unauthorized, or_raise, lit, bad_request, Result, Error,
  err, ok, ◌>>=◌, ◌>>◌,
}

abbrev pub same_kind : OperationType → OperationType → Bool
same_kind OperationType.sale_create OperationType.sale_create = true
same_kind (OperationType.other s) (OperationType.other t) = text_eq s t
same_kind _ _ = false

-- `error.getStatus()` of the exceptions.
abbrev pub status_code : Error → ℕ
status_code (bad_request m) = 400
status_code (unauthorized m) = 401
status_code (forbidden m) = 403
status_code (not_found m) = 404
status_code (conflict m) = 409

-- What the transaction of a sale leaves, or what was there before it was rolled back.
abbrev pub till_after : Till.State → Result Till.State → Till.State
till_after st (ok next) = next
till_after st (err e) = st

module _ {P : Type 0} where
  -- `new Map(...)` with `get`: of two operations with one id, the last one counts.
  unfoldable pub last_with : ℕ → List (OperationInput P) → Option (OperationInput P)
  last_with k [] = none
  last_with k (i ∷ is) = elim (last_with k is) [
    | none ↦ if i.client_id == k then some i else none
    | some later ↦ some later
  ]

  abbrev pub matches_candidate : Json P → Option (OperationInput P) → Operation P → Bool
  matches_candidate json none o = false
  matches_candidate json (some i) o = same_kind i.kind o.kind && json.same_text i.payload o.payload

  -- `matches`
  unfoldable pub is_repeat : Json P → List (OperationInput P) → List (Operation P) → Bool
  is_repeat json is os =
      length os == length is
      && all (λ (o : Operation P). matches_candidate json (last_with o.client_id is) o) os

  abbrev pub operation_ids : List (OperationInput P) → List ℕ
  operation_ids = map (λ (i : OperationInput P). i.client_id)

  abbrev pub batch_has : ℕ → Batch P → Bool
  batch_has k b = any (λ (o : Operation P). o.client_id == k) b.operations

  -- `offlineSyncOperation.count` where `clientOperationId` is one of the ids.
  abbrev pub is_used : List (Batch P) → OperationInput P → Bool
  is_used batches i = any (batch_has i.client_id) batches

  -- The operation as the database keeps it.
  unfoldable pub created : Json P → OperationInput P → Operation P
  created json i = record {
    client_id = i.client_id;
    kind = i.kind;
    timestamp = i.timestamp;
    payload = json.stored i.payload;
    status = OperationStatus.pending;
    sale = none;
    error_code = none;
    processed_at = none;
  }

  -- `execute`; `id` is the id that the database gives a sale.
  unfoldable pub execute :
      Json P → Shop → Moment → ℕ → User → OperationType → P → Till.State → Result Till.State
  execute json shop now id actor OperationType.sale_create payload st = do
    dto ← json.decode payload
    create shop now id actor dto st
  execute json shop now id actor (OperationType.other s) payload st =
      err (bad_request (lit "Unsupported offline operation."))

  abbrev pub applied : Moment → ℕ → Operation P → Operation P
  applied now id o = record o {
    status = OperationStatus.applied;
    sale = some id;
    processed_at = some now.ms;
  }

  abbrev pub rejected : Moment → Error → Operation P → Operation P
  rejected now e o = record o {
    status = OperationStatus.rejected;
    error_code = some (status_code e);
    processed_at = some now.ms;
  }

  -- The body of the `try`, or the handler of an exception.
  abbrev pub operation_after : Moment → ℕ → Result Till.State → Operation P → Operation P
  operation_after now id (ok next) o = applied now id o
  operation_after now id (err e) o = rejected now e o

  -- The loop. `sale_id n` is the id of the sale that the n-th operation makes, if it makes one.
  unfoldable pub process :
      Json P
      → Shop
      → Moment
      → (ℕ → ℕ)
      → User
      → ℕ
      → List (Operation P)
      → Till.State
      → List (Operation P) × Till.State
  process json shop now sale_id actor n [] st = ([], st)
  process json shop now sale_id actor n (o ∷ os) st =
      let outcome = execute json shop now (sale_id n) actor o.kind o.payload st in
      let (rest, end) = process json shop now sale_id actor (suc n) os (till_after st outcome) in
      (operation_after now (sale_id n) outcome o ∷ rest, end)

  abbrev pub is_applied : Operation P → Bool
  is_applied o = elim o.status [
    | OperationStatus.applied ↦ true
    | OperationStatus.pending ↦ false
    | OperationStatus.rejected ↦ false
  ]

  abbrev pub is_rejected : Operation P → Bool
  is_rejected o = elim o.status [
    | OperationStatus.rejected ↦ true
    | OperationStatus.pending ↦ false
    | OperationStatus.applied ↦ false
  ]

  -- The counts `applied` and `rejected`, and the status by them.
  unfoldable pub status_of : List (Operation P) → BatchStatus
  status_of os =
      if length (filter is_rejected os) == 0
      then BatchStatus.completed
      else if length (filter is_applied os) == 0
      then BatchStatus.failed
      else BatchStatus.partially_failed

  -- `status` and `byClientId`
  unfoldable pub status : ℕ → ℕ → State P → Result (Batch P)
  status user id st =
      or_raise (find (λ (b : Batch P). b.id == id && b.user == user) st.batches)
        (not_found (lit "Sync batch not found."))

  unfoldable pub by_client_id : ℕ → ℕ → State P → Result (Batch P)
  by_client_id user client_id st =
      or_raise (find (λ (b : Batch P). b.client_id == client_id && b.user == user) st.batches)
        (not_found (lit "Sync batch not found."))

  -- A batch with the identifier is there already.
  unfoldable pub resubmit :
      Json P → User → BatchInput P → Batch P → State P → Result (Batch P × State P)
  resubmit json actor dto b st = do
    raise_if (not (b.user == actor.id) || not (b.device == dto.device))
        (conflict (lit "The batch identifier belongs to another sync source."))
    raise_if (not (is_repeat json dto.operations b.operations))
        (conflict (lit "The batch identifier was reused with different operations."))
    ok (b, st)

  -- The row of the batch, at the end.
  abbrev pub new_batch : Moment → ℕ → User → BatchInput P → List (Operation P) → Batch P
  new_batch now id actor dto operations = record {
    id = id;
    user = actor.id;
    client_id = dto.client_id;
    device = dto.device;
    status = status_of operations;
    completed_at = some now.ms;
    operations = operations;
  }

  -- The batch with its operations executed.
  unfoldable pub processed :
      Json P → Shop → Moment → ℕ → (ℕ → ℕ) → User → BatchInput P → State P → State P
  processed json shop now id sale_id actor dto st =
      let (operations, till) =
        process json shop now sale_id actor 0 (map (created json) dto.operations) st.till in
      record { batches = new_batch now id actor dto operations ∷ st.batches; till = till }

  unfoldable pub submit_new :
      Json P
      → Shop
      → Moment
      → ℕ
      → (ℕ → ℕ)
      → User
      → BatchInput P
      → State P
      → Result (Batch P × State P)
  submit_new json shop now id sale_id actor dto st = do
    raise_if (has_duplicates (operation_ids dto.operations))
        (bad_request (lit "Client operation identifiers must be unique within a batch."))
    raise_if (any (is_used st.batches) dto.operations)
        (conflict (lit "One or more operation identifiers were already used in another batch."))
    let done = processed json shop now id sale_id actor dto st
    b ← status actor.id id done
    ok (b, done)

  abbrev pub submit_found :
      Option (Batch P)
      → Json P
      → Shop
      → Moment
      → ℕ
      → (ℕ → ℕ)
      → User
      → BatchInput P
      → State P
      → Result (Batch P × State P)
  submit_found none json shop now id sale_id actor dto st =
      submit_new json shop now id sale_id actor dto st
  submit_found (some b) json shop now id sale_id actor dto st = resubmit json actor dto b st

  abbrev pub has_client_id : ℕ → Batch P → Bool
  has_client_id k b = b.client_id == k

  -- `id` is the id that the database gives the batch.
  unfoldable pub submit :
      Json P
      → Shop
      → Moment
      → ℕ
      → (ℕ → ℕ)
      → User
      → BatchInput P
      → State P
      → Result (Batch P × State P)
  submit json shop now id sale_id actor dto st =
      submit_found (find (has_client_id dto.client_id) st.batches) json shop now id sale_id actor
        dto st
