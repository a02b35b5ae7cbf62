-- ===== src/Inventory/Transfer.antt =====
-- `InventoryService.createTransfer`: a request to move goods from one branch to another.
use technova_pos_api.Prelude.{
  ℕ, ◌+◌, Bool, false, ◌&&◌, ◌||◌, not, Option, none, some, List, [], ◌∷◌, map, ◌==◌, ltb, find,
  any, filter, length, contains,
}
use technova_pos_api.Prelude.Result.{
  Result, ok, raise_if, ◌>>=◌, ◌>>◌, bad_request, not_found, conflict, lit,
}
use technova_pos_api.Prelude.Text.{Text}
use technova_pos_api.Directory.{Directory, User, organization_id}
use technova_pos_api.Stock.{StockLevel, level_at}
use technova_pos_api.Inventory.State.{State, StockTransfer, TransferItem, TransferStatus, audit}

-- `TransferItemDto` and `CreateTransferDto`
pub record RequestItem : Type 0 where
  pub product : ℕ
  pub quantity : ℕ

pub record TransferRequest : Type 0 where
  pub source : ℕ
  pub destination : ℕ
  pub notes : Option Text
  pub items : List RequestItem

-- `new Set(ids).size !== ids.length`
unfoldable pub has_duplicates : List ℕ → Bool
has_duplicates [] = false
has_duplicates (x ∷ xs) = contains x xs || has_duplicates xs

abbrev pub item_ids : List RequestItem → List ℕ
item_ids = map (λ i. i.product)

-- The row counts that the guards compare.
unfoldable pub branch_count : Directory → ℕ → ℕ → ℕ → ℕ
branch_count dir org source destination =
    length
      (filter (λ b. (b.id == source || b.id == destination) && b.organization == org) dir.branches)

unfoldable pub product_count : Directory → ℕ → List ℕ → ℕ
product_count dir org ids =
    length (filter (λ p. contains p.id ids && p.organization == org) dir.products)

-- `quantity > quantityOnHand - quantityReserved`, where the difference may be negative; without a
-- row nothing is available.
unfoldable pub exceeds_available : List StockLevel → ℕ → RequestItem → Bool
exceeds_available levels branch item = elim (find (level_at branch item.product) levels) [
  | none ↦ ltb 0 item.quantity
  | some l ↦ ltb l.on_hand (item.quantity + l.reserved)
]

abbrev pub new_item : RequestItem → TransferItem
new_item i = record { product = i.product; quantity = i.quantity; received_quantity = 0 }

abbrev pub new_transfer : ℕ → TransferRequest → StockTransfer
new_transfer id dto = record {
  id = id;
  source = dto.source;
  destination = dto.destination;
  status = TransferStatus.submitted;
  items = map new_item dto.items;
  notes = dto.notes;
  dispatched_at = none;
  received_at = none;
}

-- `new_id` is the id that the database gives the row.
unfoldable pub create_transfer : Directory → ℕ → User → TransferRequest → State → Result State
create_transfer dir new_id actor dto st = do
  raise_if (dto.source == dto.destination)
      (bad_request (lit "Source and destination branches must differ."))
  org ← organization_id dir actor.id
  raise_if (not (branch_count dir org dto.source dto.destination == 2))
      (not_found (lit "Source or destination branch not found."))
  raise_if (has_duplicates (item_ids dto.items))
      (bad_request (lit "A product can appear only once in a transfer."))
  raise_if (not (product_count dir org (item_ids dto.items) == length dto.items))
      (bad_request (lit "One or more products are invalid."))
  raise_if (any (exceeds_available st.stock.levels dto.source) dto.items)
      (conflict (lit "Transfer quantity cannot exceed available stock at the source branch."))
  ok (record st {
    transfers = new_transfer new_id dto ∷ st.transfers;
    audits = audit actor "STOCK_TRANSFER_CREATED" new_id st.audits;
  })
