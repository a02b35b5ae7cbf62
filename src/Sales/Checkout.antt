-- ===== src/Sales/Checkout.antt =====
-- The transaction of `SalesService.create` put together, and the operation as a whole.
use technova_pos_api.Prelude.{ℕ, ◌-◌, Option, List, ◌∷◌, ◌++◌, map, find, any}
use technova_pos_api.Prelude.Int.{sub_ℕ}
use technova_pos_api.Prelude.Result.{
  Result, ok, or_raise, raise_if, ◌>>=◌, ◌>>◌, bad_request, not_found, lit,
}
use technova_pos_api.Calendar.{Moment}
use technova_pos_api.Directory.{User, organization_id}
use technova_pos_api.Payment.{is_credit}
use technova_pos_api.Sales.Pricing.{create_totals}
use technova_pos_api.Sales.State.{State, Shop, LoyaltyRule, SaleRequest, Sale, SaleStatus, Receipt}
use technova_pos_api.Sales.Customers.{
  may_sell_at, find_customer, active_loyalty_rule, redemption_value, check_customer,
  store_credit_payment,
}
use technova_pos_api.Sales.Checks.{
  PreparedLine, Settlement, missing_products, prepare_items, check_payment,
}
use technova_pos_api.Sales.Selling.{sell_lines}
use technova_pos_api.Sales.Settling.{
  payment_row, spend_store_credit, open_agreement, update_loyalty,
}

abbrev pub sale_row : ℕ → Moment → User → SaleRequest → Settlement → Sale
sale_row id now actor dto s = record {
  id = id;
  branch = dto.branch;
  customer = dto.customer;
  created_by = actor.id;
  status = SaleStatus.completed;
  subtotal = s.totals.subtotal;
  discount_total = s.totals.discount_total;
  tax_total = s.totals.tax_total;
  total = s.totals.total;
  paid_total = s.paid;
  balance_due = sub_ℕ s.payable s.paid;
  loyalty_points_redeemed = dto.loyalty_points;
  loyalty_redemption_value = s.redemption;
  completed_at = now.ms;
}

abbrev pub receipt_of : ℕ → List PreparedLine → Settlement → Receipt
receipt_of sale rows s = record {
  sale = sale;
  lines = map (λ r. r.priced) rows;
  amount_due_after_loyalty = s.payable;
  balance_due = sub_ℕ s.payable s.paid;
}

-- The statements behind the loop, but for the loyalty points.
abbrev pub settle_sale : ℕ → Moment → SaleRequest → Settlement → State → State
settle_sale sale now dto s st = open_agreement sale dto.customer dto.credit (s.payable - s.paid) (
    spend_store_credit sale dto.customer (store_credit_payment dto.payments)
      (record st { payments = map (payment_row sale now) dto.payments ++ st.payments }))

-- The whole transaction.
unfoldable pub checkout :
    User
    → Moment
    → ℕ
    → SaleRequest
    → Option LoyaltyRule
    → List PreparedLine
    → Settlement
    → State
    → Result State
checkout actor now sale dto rule rows s st = do
  sold ←
      sell_lines actor now sale dto 0 rows
        (record st { sales = sale_row sale now actor dto s ∷ st.sales })
  done ← update_loyalty sale rule dto s.payable dto.customer (settle_sale sale now dto s sold)
  ok (record done {
    receipts = receipt_of sale rows s ∷ done.receipts;
    audits = record { user = actor.id; action = "SALE_COMPLETED"; subject = sale } ∷ done.audits;
  })

-- Everything before the transaction: the lines and what is paid for them.
unfoldable pub prepare_sale :
    Shop → Moment → User → SaleRequest → State → Result (List PreparedLine × Settlement)
prepare_sale shop now actor dto st = do
  raise_if (any (λ p. is_credit p.method) dto.payments)
      (bad_request (lit "Use the customer-credit checkout endpoint for credit sales."))
  org ← organization_id shop.directory actor.id
  branch ←
      or_raise (find (may_sell_at actor org dto.branch) shop.directory.branches)
        (not_found (lit "Active assigned branch not found."))
  customer ← find_customer shop org dto.customer
  check_customer customer dto st
  raise_if (missing_products shop org (map (λ i. i.product) dto.items))
      (bad_request (lit "One or more products are invalid."))
  rows ← prepare_items shop org now.ms dto.items
  let totals = create_totals (map (λ r. r.priced) rows)
  let value = redemption_value (active_loyalty_rule shop org)
  s ← check_payment now.ms customer value dto st.agreements totals
  ok (rows, s)

-- `sale` is the id that the database gives the row.
unfoldable pub create : Shop → Moment → ℕ → User → SaleRequest → State → Result State
create shop now sale actor dto st = do
  (rows, s) ← prepare_sale shop now actor dto st
  org ← organization_id shop.directory actor.id
  checkout actor now sale dto (active_loyalty_rule shop org) rows s st
