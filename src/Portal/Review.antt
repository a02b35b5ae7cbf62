-- ===== src/Portal/Review.antt =====
-- `SupplierPortalService.review`: the changes that a supplier proposes are taken over or not.
use technova_pos_api.Inventory.State.{audit}
use technova_pos_api.Portal.Respond.{proposes_changes}
use technova_pos_api.Prelude.Int.{sub_ℕ, ℤ}
use technova_pos_api.Purchasing.State.{update_order, ordered_by, PurchaseOrder, OrderItem}
use technova_pos_api.Portal.State.{SupplierResponse, State, ReviewStatus, ResponseLine}
use technova_pos_api.Directory.{organization_id, User, Directory}
use technova_pos_api.Prelude.Result.{
  conflict, lit, raise_if, not_found, or_raise, Result, ◌>>◌, ◌>>=◌, ok,
}
use technova_pos_api.Prelude.{
  if◌then◌else◌, [], map, ◌∷◌, List, some, none, ◌||◌, ◌&&◌, not, false, true, Bool, ◌*◌, ◌+◌, ℕ,
  sum_of, update_many, any, find, ◌==◌,
}

-- `ReviewSupplierResponseDto`, without the notes.
pub record Decision : Type 0 where
  pub approved : Bool

abbrev pub is_pending : ReviewStatus → Bool
is_pending ReviewStatus.pending = true
is_pending _ = false

-- `purchaseOrderItem.update` by a line.
abbrev pub change_item : ResponseLine → OrderItem → OrderItem
change_item l i = record i {
  quantity = elim l.quantity [ none ↦ i.quantity | some q ↦ q ];
  unit_cost = elim l.unit_cost [ none ↦ i.unit_cost | some c ↦ c ];
}

unfoldable pub change_items : List ResponseLine → List OrderItem → List OrderItem
change_items [] is = is
change_items (l ∷ ls) is =
    change_items ls (update_many (λ (i : OrderItem). i.id == l.item) (change_item l) is)

-- `quantity * unitCost`, and the line total.
abbrev pub item_cost : OrderItem → ℕ
item_cost i = i.quantity * i.unit_cost

abbrev pub item_total : OrderItem → ℤ
item_total i = sub_ℕ (item_cost i + i.tax * 1000) (i.discount * 1000)

abbrev pub with_total : OrderItem → OrderItem
with_total i = record i { line_total = item_total i }

abbrev pub costs_of : List OrderItem → ℕ
costs_of = sum_of item_cost

abbrev pub discounts_of : List OrderItem → ℕ
discounts_of = sum_of (λ (i : OrderItem). i.discount * 1000)

abbrev pub taxes_of : List OrderItem → ℕ
taxes_of = sum_of (λ (i : OrderItem). i.tax * 1000)

-- The statements of the transaction on the order.
unfoldable pub changed_order : List ResponseLine → PurchaseOrder → PurchaseOrder
changed_order ls o =
    let items = change_items ls o.items in
    record o {
      items = map with_total items;
      subtotal = costs_of items;
      discount_total = discounts_of items;
      tax_total = taxes_of items;
      total = sub_ℕ (costs_of items + taxes_of items) (discounts_of items);
    }

abbrev pub reviewed : ℕ → User → Decision → SupplierResponse → SupplierResponse
reviewed now actor dto r = record r {
  review = if dto.approved then ReviewStatus.approved else ReviewStatus.rejected;
  reviewed_by = some actor.id;
  reviewed_at = some now;
}

-- `supplierOrderResponse.findFirst` with its order.
abbrev pub is_of_order : Directory → ℕ → ℕ → SupplierResponse → PurchaseOrder → Bool
is_of_order dir org id r o = r.id == id && o.id == r.order && ordered_by dir org o

unfoldable pub find_response : Directory → ℕ → ℕ → State → Result SupplierResponse
find_response dir org id st =
    or_raise
      (find (λ (r : SupplierResponse). any (is_of_order dir org id r) st.orders) st.responses)
      (not_found (lit "Supplier response not found."))

-- The supplier is told of the decision.
unfoldable pub review : Directory → ℕ → User → ℕ → Decision → State → Result State
review dir now actor id dto st = do
  org ← organization_id dir actor.id
  response ← find_response dir org id st
  raise_if (not (proposes_changes response.status) || not (is_pending response.review))
      (conflict (lit "This response does not need a review."))
  ok (record st {
    orders =
        if dto.approved
        then update_order response.order (changed_order response.lines) st.orders
        else st.orders;
    responses =
        update_many (λ (r : SupplierResponse). r.id == id) (reviewed now actor dto) st.responses;
    audits = audit actor "SUPPLIER_ORDER_RESPONSE_REVIEWED" response.order st.audits;
  })
