-- ===== src/Purchasing/Received.antt =====
-- What has been received of an order.
use technova_pos_api.Prelude.{find-test, ltb, All-map}
use technova_pos_api.Prelude.Result.{
  ok, >>=-eq-ok, ok-injective, raise_if, raise_if-ok, or_raise, or_raise-ok, bad_request, lit,
  about,
}
use technova_pos_api.Inventory.Dispatch.{tracks_serials}
use technova_pos_api.Purchasing.Prepare.{line_serials, find_item}
use technova_pos_api.Prelude.{
  find-test, All-map, ℕ, ◌+◌, ◌≤◌, ◌≡◌, sym, ap, ◌∙◌, List, [], ◌∷◌, ◌==◌, sum_of, arith, All,
  false, true, if◌then◌else◌, some, contains, inl, inr, Bool-cases,
}
use technova_pos_api.Prelude.Result.{ok, >>=-eq-ok}
use technova_pos_api.Directory.{Directory}
use technova_pos_api.Purchasing.State.{OrderItem}
use technova_pos_api.Purchasing.Prepare.{
  Entropy, ReceiptInput, PreparedRow, find_item, prepare_row, prepare_rows, line_serials,
}
use technova_pos_api.Purchasing.Receive.{receive_on}

abbrev pub IsWithin : OrderItem → Type 0
IsWithin i = i.received_quantity ≤ i.quantity

-- The id of an item is its own (`@id`).
abbrev pub IsKeyed : List OrderItem → Type 0
IsKeyed items = All (λ i. find_item i.id items ≡ some i) items

-- What the rows add to an item.
abbrev pub gained : ℕ → List PreparedRow → ℕ
gained id = sum_of (λ r. if r.item.id == id then r.input.quantity else 0)

abbrev pub receive_all : List PreparedRow → List OrderItem → List OrderItem
receive_all [] items = items
receive_all (row ∷ rows) items = receive_all rows (receive_on row items)

abbrev pub Leaves : List PreparedRow → OrderItem → Type 0
Leaves rows i = i.received_quantity + gained i.id rows ≤ i.quantity

receive_on-Leaves :
    (row : PreparedRow) (rows : List PreparedRow) (items : List OrderItem)
    → All (Leaves (row ∷ rows)) items
    → All (Leaves rows) (receive_on row items)
receive_on-Leaves row rows [] h = tt
receive_on-Leaves row rows (i ∷ is) h = (ground arith, receive_on-Leaves row rows is h.1)

pub receive_all-IsWithin :
    (rows : List PreparedRow) (items : List OrderItem)
    → All (Leaves rows) items
    → All IsWithin (receive_all rows items)
receive_all-IsWithin [] items h = All-map (λ i le. omega (arith, le)) items h
receive_all-IsWithin (row ∷ rows) items h =
    receive_all-IsWithin rows (receive_on row items) (receive_on-Leaves row rows items h)

module _ (entropy : Entropy) (dir : Directory) (items : List OrderItem) where
  prepare_row-fits :
      (seen : List ℕ) (input : ReceiptInput) {row : PreparedRow}
      → prepare_row entropy dir items seen input ≡ ok row
      → (contains input.item seen ≡ false)
        × (find_item input.item items ≡ some row.item)
        × (row.item.id ≡ input.item)
        × (row.input ≡ input)
        × (input.quantity + row.item.received_quantity ≤ row.item.quantity)
  unfolding prepare_row
  prepare_row-fits seen input {row} e =
      let (_, fresh, e1) =
        >>=-eq-ok
          (raise_if (contains input.item seen) (bad_request (lit "Receipt item is duplicated."))) _
          e in
      let (item, is_item, e2) =
        >>=-eq-ok
          (or_raise (find_item input.item items)
            (bad_request (lit "Receipt item does not belong to this purchase order.")))
          _ e1 in
      let found = or_raise-ok (find_item input.item items) _ is_item in
      let (_, room, e3) =
        >>=-eq-ok
          (raise_if (ltb item.quantity (input.quantity + item.received_quantity)) (
            bad_request (about "Received quantity exceeds remaining quantity for %." item.product)))
          _ e2 in
      let (serials, _, e4) =
        >>=-eq-ok (line_serials entropy (tracks_serials dir item.product) item input) _ e3 in
      let same : item ≡ row.item = ap (λ (r : PreparedRow). r.item) (ok-injective e4) in
      let met = find-test (λ i. i.id == input.item) items found in
      let fits = raise_if-ok _ _ room in
      (
        raise_if-ok _ _ fresh,
        found ∙ ap some same,
        rw (← same) (ground (arith, met)),
        sym (ap (λ (r : PreparedRow). r.input) (ok-injective e4)),
        rw (← same) (ground (arith, fits)),
      )

  -- A row for an item comes but once, and leaves it within its quantity.
  pub prepare_rows-fits :
      (seen : List ℕ) (inputs : List ReceiptInput) {rows : List PreparedRow} (i : OrderItem)
      → find_item i.id items ≡ some i
      → IsWithin i
      → prepare_rows entropy dir items seen inputs ≡ ok rows
      → (contains i.id seen ≡ true → gained i.id rows ≡ 0) × Leaves rows i
  unfolding prepare_rows
  prepare_rows-fits seen [] i own within e = ground arith
  prepare_rows-fits seen (input ∷ inputs) i own within e =
      let (row, first, e1) = >>=-eq-ok (prepare_row entropy dir items seen input) _ e in
      let (rest, others, e2) =
        >>=-eq-ok (prepare_rows entropy dir items (input.item ∷ seen) inputs) _ e1 in
      let (fresh, found, same, same_input, fits) = prepare_row-fits seen input first in
      let (once, leaves) = prepare_rows-fits (input.item ∷ seen) inputs i own within others in
      elim (Bool-cases (input.item == i.id)) [
        | inl mine ↦ ground (arith, once)
        | inr other ↦ ground (arith, once, leaves)
      ]
