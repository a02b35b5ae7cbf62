-- ===== src/Purchasing/Prepare.antt =====
-- What `PurchasingService.receive` checks and prepares before its transaction.
use Prim.Native.Nat.{zero, suc}
use technova_pos_api.Prelude.{
  suc, ℕ, ◌+◌, ◌*◌, ◌/◌, ◌%◌, Bool, true, false, ◌||◌, ◌&&◌, not, Option, List, [], ◌∷◌, map, ◌==◌,
  ltb, any, length, filter, find, contains, if◌then◌else◌,
}
use technova_pos_api.Prelude.Text.{Text, text_eq}
use technova_pos_api.Prelude.Result.{
  Result, ok, raise_if, or_raise, ◌>>=◌, ◌>>◌, bad_request, lit, about,
}
use technova_pos_api.Directory.{Directory}
use technova_pos_api.Stock.{piece}
use technova_pos_api.Inventory.Dispatch.{normalize_serial, tracks_serials}
use technova_pos_api.Purchasing.State.{OrderItem}

-- `ReceiptItemDto`; an absent list of serial numbers is the empty one.
pub record ReceiptInput : Type 0 where
  pub item : ℕ
  pub quantity : ℕ
  pub serials : List Text
  pub generate_serials : Bool

-- `ReceivePurchaseOrderDto`
pub record ReceiptRequest : Type 0 where
  pub number : Text
  pub invoice : Option ℕ
  pub invoice_number : Option Text
  pub items : List ReceiptInput

-- What `randomUUID` makes for the unit at a place of a line: its id, and its serial number.
pub record Entropy : Type 0 where
  pub unit_id : ℕ → ℕ → ℕ
  pub serial : ℕ → ℕ → Text

pub record PreparedRow : Type 0 where
  pub input : ReceiptInput
  pub item : OrderItem
  pub serials : List Text

-- `.filter(Boolean)`
abbrev pub is_filled : Text → Bool
is_filled [] = false
is_filled (_ ∷ _) = true

-- `new Set(serialNumbers).size !== serialNumbers.length`
unfoldable pub repeats : List Text → Bool
repeats [] = false
repeats (s ∷ ss) = any (text_eq s) ss || repeats ss

-- `Array.from({ length: quantity }, generate)`
abbrev pub generated : Entropy → ℕ → ℕ → List Text
generated entropy item zero = []
generated entropy item (suc n) = entropy.serial item n ∷ generated entropy item n

abbrev pub typed_serials : ReceiptInput → List Text
typed_serials input = filter is_filled (map normalize_serial input.serials)

unfoldable pub line_serials : Entropy → Bool → OrderItem → ReceiptInput → Result (List Text)
line_serials entropy true item input = do
  raise_if (not (input.quantity % piece == 0))
      (bad_request (about "% must be received as complete serialized units." item.product))
  raise_if (input.generate_serials && not (length (typed_serials input) == 0)) (
      bad_request (about "Choose automatic or manual serial numbers for %, not both." item.product))
  raise_if
      (not input.generate_serials && not (length (typed_serials input) * piece == input.quantity))
      (bad_request (
        about "Every % unit requires one serial number, or enable automatic generation."
          item.product))
  let serials =
      if input.generate_serials
      then generated entropy item.id (input.quantity / piece)
      else typed_serials input
  raise_if (repeats serials)
      (bad_request (about "Serial numbers for % must be unique." item.product))
  ok serials
line_serials entropy false item input = do
  raise_if (not (length (typed_serials input) == 0) || input.generate_serials)
      (bad_request (about "% is not configured for serial tracking." item.product))
  ok []

abbrev pub find_item : ℕ → List OrderItem → Option OrderItem
find_item id items = find (λ i. i.id == id) items

-- The callback of `dto.items.map`; `seen` are the items before.
unfoldable pub prepare_row :
    Entropy → Directory → List OrderItem → List ℕ → ReceiptInput → Result PreparedRow
prepare_row entropy dir items seen input = do
  raise_if (contains input.item seen) (bad_request (lit "Receipt item is duplicated."))
  item ←
      or_raise (find_item input.item items)
        (bad_request (lit "Receipt item does not belong to this purchase order."))
  raise_if (ltb item.quantity (input.quantity + item.received_quantity))
      (bad_request (about "Received quantity exceeds remaining quantity for %." item.product))
  serials ← line_serials entropy (tracks_serials dir item.product) item input
  ok (record { input = input; item = item; serials = serials })

unfoldable pub prepare_rows :
    Entropy → Directory → List OrderItem → List ℕ → List ReceiptInput → Result (List PreparedRow)
prepare_rows entropy dir items seen [] = ok []
prepare_rows entropy dir items seen (i ∷ is) = do
  row ← prepare_row entropy dir items seen i
  rest ← prepare_rows entropy dir items (i.item ∷ seen) is
  ok (row ∷ rest)
