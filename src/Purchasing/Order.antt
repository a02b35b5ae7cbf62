-- ===== src/Purchasing/Order.antt =====
-- `PurchasingService.create` and `approve`: an order is drawn up, and approved.
use technova_pos_api.Prelude.{
  ◌^◌, ◌-◌, ◌/◌, ℕ, ◌+◌, ◌*◌, ◌%◌, Bool, true, false, ◌||◌, ◌&&◌, not, Option, none, some, List, [],
  ◌∷◌, map, ◌==◌, ltb, any, sum_of, length,
}
use technova_pos_api.Prelude.Int.{ℤ, sub_ℕ, ltb_ℤ, pos}
use technova_pos_api.Prelude.Result.{Result, ok, raise_if, ◌>>=◌, ◌>>◌, bad_request, conflict, lit}
use technova_pos_api.Directory.{Directory, User, organization_id, find_branch}
use technova_pos_api.Stock.{piece}
use technova_pos_api.Inventory.State.{audit}
use technova_pos_api.Inventory.Transfer.{has_duplicates, product_count}
use technova_pos_api.Purchasing.State.{
  State, OrderItem, PurchaseOrder, PurchaseOrderStatus, Supplier, update_order, find_order,
}

-- `PurchaseOrderItemDto`, with the id that the database gives the row; amounts in cents, an absent
-- discount or tax is 0.
pub record ItemInput : Type 0 where
  pub new_id : ℕ
  pub product : ℕ
  pub quantity : ℕ
  pub unit_cost : ℕ
  pub discount : ℕ
  pub tax : ℕ

-- `CreatePurchaseOrderDto`
pub record OrderRequest : Type 0 where
  pub branch : ℕ
  pub supplier : ℕ
  pub items : List ItemInput

abbrev is_missing {ℓ} : {A : Type ℓ} → Option A → Bool
is_missing none = true
is_missing (some _) = false

-- `assertBranchSupplier`
abbrev pub is_invalid_place : Directory → List Supplier → ℕ → ℕ → ℕ → Bool
is_invalid_place dir suppliers org branch supplier =
    is_missing (find_branch dir org branch)
    || not (any (λ s. s.id == supplier && s.organization == org) suppliers)

-- `Number.MAX_SAFE_INTEGER`
abbrev pub max_safe_integer : ℕ
max_safe_integer = 2 ^ 53 - 1

-- `!Number.isSafeInteger(quantity) || quantity < 1`
abbrev pub is_not_whole : ℕ → Bool
is_not_whole q = not (q % piece == 0) || ltb max_safe_integer (q / piece) || ltb q piece

-- `quantity * unitCost - discount + tax`
abbrev pub gross_cost : ItemInput → ℕ
gross_cost i = i.quantity * i.unit_cost

abbrev pub line_of : ItemInput → ℤ
line_of i = sub_ℕ (gross_cost i + i.tax * 1000) (i.discount * 1000)

abbrev pub new_item : ItemInput → OrderItem
new_item i = record {
  id = i.new_id;
  product = i.product;
  quantity = i.quantity;
  received_quantity = 0;
  unit_cost = i.unit_cost;
  discount = i.discount;
  tax = i.tax;
  line_total = line_of i;
}

-- The totals of the loop over the items.
abbrev pub subtotal_of : List ItemInput → ℕ
subtotal_of = sum_of gross_cost

abbrev pub discounts_of : List ItemInput → ℕ
discounts_of = sum_of (λ i. i.discount * 1000)

abbrev pub taxes_of : List ItemInput → ℕ
taxes_of = sum_of (λ i. i.tax * 1000)

abbrev pub new_order : ℕ → OrderRequest → PurchaseOrder
new_order id dto = record {
  id = id;
  branch = dto.branch;
  supplier = dto.supplier;
  status = PurchaseOrderStatus.draft;
  approved_by = none;
  approved_at = none;
  subtotal = subtotal_of dto.items;
  discount_total = discounts_of dto.items;
  tax_total = taxes_of dto.items;
  total = sub_ℕ (subtotal_of dto.items + taxes_of dto.items) (discounts_of dto.items);
  items = map new_item dto.items;
  invoices = [];
}

-- `new_id` is the id that the database gives the order.
unfoldable pub create : Directory → List Supplier → ℕ → User → OrderRequest → State → Result State
create dir suppliers new_id actor dto st = do
  org ← organization_id dir actor.id
  raise_if (is_invalid_place dir suppliers org dto.branch dto.supplier)
      (bad_request (lit "Branch or supplier is invalid."))
  raise_if (any (λ i. is_not_whole i.quantity) dto.items)
      (bad_request (lit "Purchase order quantities must be positive whole numbers."))
  raise_if (has_duplicates (map (λ i. i.product) dto.items))
      (bad_request (lit "A product can appear only once per purchase order."))
  raise_if (not (product_count dir org (map (λ i. i.product) dto.items) == length dto.items))
      (bad_request (lit "One or more products are invalid."))
  raise_if (any (λ i. ltb_ℤ (line_of i) (pos 0)) dto.items)
      (bad_request (lit "A purchase line total cannot be negative."))
  ok (record st {
    orders = new_order new_id dto ∷ st.orders;
    audits = audit actor "PURCHASE_ORDER_CREATED" new_id st.audits;
  })

abbrev pub is_approvable : PurchaseOrderStatus → Bool
is_approvable PurchaseOrderStatus.draft = true
is_approvable PurchaseOrderStatus.submitted = true
is_approvable _ = false

-- The supplier is told of it afterwards.
unfoldable pub approve : Directory → ℕ → User → ℕ → State → Result State
approve dir now actor id st = do
  o ← find_order dir actor.id id st.orders
  raise_if (not (is_approvable o.status))
      (conflict (lit "Only draft or submitted orders can be approved."))
  ok (record st {
    orders =
        update_order id
          (λ x. record x {
            status = PurchaseOrderStatus.approved;
            approved_by = some actor.id;
            approved_at = some now;
          })
          st.orders;
    audits = audit actor "PURCHASE_ORDER_APPROVED" id st.audits;
  })
