-- ===== src/Sales/Limit.antt =====
-- What a credit sale adds to what the customer owes.
use technova_pos_api.Directory.{organization_id, is_active}
use technova_pos_api.Prelude.{find, find-test, ◌<◌, ◌&&◌, ◌==◌}
use technova_pos_api.Sales.Customers.{active_loyalty_rule, redemption_value, find_customer}
use technova_pos_api.Sales.Checks.{Settlement}
use mathlib.Core.Path.{subst}
use technova_pos_api.Sales.Accepted.{check_payment-IsPaid}
use technova_pos_api.Sales.State.{LoyaltyRule}
use technova_pos_api.Prelude.{
  ◌<◌, ◌*◌, ℕ, ◌+◌, ◌-◌, ◌≤◌, ◌≡◌, refl, sym, ap, ◌∙◌, Option, some, ltb, leb, find, arith, List,
  ◌∷◌, ◌==◌, ◌&&◌, find-test, not, map,
}
use technova_pos_api.Prelude.Result.{
  >>=-eq-ok, ok-injective, ok, raise_if, raise_if-ok, or_raise, or_raise-ok, lit, not_found,
  bad_request, conflict,
}
use technova_pos_api.Directory.{User, organization_id, is_active}
use technova_pos_api.Calendar.{Moment}
use technova_pos_api.Sales.Pricing.{cents, Totals, create_totals}
use technova_pos_api.Sales.State.{Shop, State, SaleRequest, CreditTerms, Customer, CreditAgreement}
use technova_pos_api.Sales.Customers.{
  active_loyalty_rule, find_customer, store_credit_payment, redemption_value, is_none,
}
use technova_pos_api.Sales.Checks.{
  Settlement, PreparedLine, check_payment, check_credit, outstanding_of, settle_totals, tolerance,
  distance,
}
use technova_pos_api.Sales.Selling.{sell_lines}
use technova_pos_api.Sales.Settling.{open_agreement, update_loyalty}
use technova_pos_api.Sales.Checkout.{settle_sale, checkout, create, prepare_sale, sale_row}
use technova_pos_api.Sales.Frames.{update_loyalty-frame, spend_store_credit-agreements}
use technova_pos_api.Sales.Accounts.{sell_lines-IsFramed}
use technova_pos_api.Sales.Accepted.{prepare_sale-IsPrepared}

check_credit-limit :
    (now : ℕ) (c : Customer) (balance : ℕ) (agreements : List CreditAgreement) (terms : CreditTerms)
    → check_credit now (some c) balance agreements (some terms) ≡ ok tt
    → outstanding_of c.id agreements + balance ≤ cents c.credit_limit
unfolding check_credit
check_credit-limit now c balance agreements terms e =
    let (_, _, e1) =
      >>=-eq-ok
        (raise_if (leb terms.due_date now)
          (bad_request (lit "Credit due date must be in the future.")))
        _ e in
    let (_, within, _) =
      >>=-eq-ok
        (raise_if (ltb (cents c.credit_limit) (outstanding_of c.id agreements + balance))
          (conflict (lit "Customer credit limit would be exceeded.")))
        _ e1 in
    let below = raise_if-ok _ _ within in ground (arith, below)

check_payment-limit :
    (now : ℕ) (c : Customer) (value : ℕ) (dto : SaleRequest) (agreements : List CreditAgreement)
    (totals : Totals) (s : Settlement) (terms : CreditTerms)
    → dto.credit ≡ some terms
    → check_payment now (some c) value dto agreements totals ≡ ok s
    → outstanding_of c.id agreements + (s.payable - s.paid) ≤ cents c.credit_limit
unfolding check_payment
check_payment-limit now c value dto agreements totals s terms is_terms e =
    let redeemed = cents (dto.loyalty_points * value) in
    let t = settle_totals totals redeemed dto.payments in
    let (_, _, e1) =
      >>=-eq-ok
        (raise_if (ltb 0 dto.loyalty_points && ltb (totals.total + tolerance) redeemed)
          (bad_request (lit "Loyalty point redemption cannot exceed the sale total.")))
        _ e in
    let (_, _, e2) =
      >>=-eq-ok
        (raise_if (is_none dto.credit && ltb tolerance (distance t.payable t.paid))
          (bad_request (lit "Payment total must equal the sale total.")))
        _ e1 in
    let (_, _, e3) =
      >>=-eq-ok
        (raise_if (not (is_none dto.credit) && leb t.payable t.paid)
          (bad_request (lit "A credit sale must have a balance due.")))
        _ e2 in
    let (_, _, e4) =
      >>=-eq-ok
        (raise_if (ltb (t.payable + tolerance) t.paid)
          (bad_request (lit "Payment total cannot exceed the sale total.")))
        _ e3 in
    let (_, checked, e5) =
      >>=-eq-ok (check_credit now (some c) (t.payable - t.paid) agreements dto.credit) _ e4 in
    let limit = check_credit-limit now c (t.payable - t.paid) agreements terms (
      subst (λ x. check_credit now (some c) (t.payable - t.paid) agreements x ≡ ok tt) is_terms
        checked) in
    subst
      (λ (x : Settlement).
        outstanding_of c.id agreements + (x.payable - x.paid) ≤ cents c.credit_limit)
      (ok-injective e5) limit

open_agreement-outstanding :
    (sale c balance : ℕ) (terms : CreditTerms) (st : State)
    → outstanding_of c (open_agreement sale (some c) (some terms) balance st).agreements
      ≡ outstanding_of c st.agreements + balance
unfolding open_agreement
open_agreement-outstanding sale c balance terms st = ground arith

settle_sale-outstanding :
    (sale : ℕ) (now : Moment) (dto : SaleRequest) (s : Settlement) (st : State) (c : ℕ)
    (terms : CreditTerms)
    → dto.customer ≡ some c
    → dto.credit ≡ some terms
    → outstanding_of c (settle_sale sale now dto s st).agreements
      ≡ outstanding_of c st.agreements + (s.payable - s.paid)
settle_sale-outstanding sale now dto s st c terms is_c is_terms =
    rw (is_c, is_terms)
      (open_agreement-outstanding sale c (s.payable - s.paid) terms _
        ∙ ap (λ l. outstanding_of c l + (s.payable - s.paid))
            (spend_store_credit-agreements sale (some c) (store_credit_payment dto.payments) _))

pub checkout-outstanding :
    (actor : User) (now : Moment) (sale : ℕ) (dto : SaleRequest) (rule : Option LoyaltyRule)
    (rows : List PreparedLine) (s : Settlement) (st : State) (c : ℕ) (terms : CreditTerms)
    {st' : State}
    → dto.customer ≡ some c
    → dto.credit ≡ some terms
    → checkout actor now sale dto rule rows s st ≡ ok st'
    → outstanding_of c st'.agreements ≡ outstanding_of c st.agreements + (s.payable - s.paid)
unfolding checkout
checkout-outstanding actor now sale dto rule rows s st c terms is_c is_terms e =
    let entered = record st { sales = sale_row sale now actor dto s ∷ st.sales } in
    let (sold, is_sold, e1) = >>=-eq-ok (sell_lines actor now sale dto 0 rows entered) _ e in
    let settled = settle_sale sale now dto s sold in
    let (done, is_done, e2) =
      >>=-eq-ok (update_loyalty sale rule dto s.payable dto.customer settled) _ e1 in
    ap (λ (x : State). outstanding_of c x.agreements) (sym (ok-injective e2))
    ∙ ap (outstanding_of c)
        (update_loyalty-frame sale rule dto s.payable dto.customer settled is_done).agreements
    ∙ settle_sale-outstanding sale now dto s sold c terms is_c is_terms
    ∙ ap (λ l. outstanding_of c l + (s.payable - s.paid))
        (sell_lines-IsFramed actor now sale dto 0 rows entered is_sold).agreements

find_customer-found :
    (shop : Shop) (org c : ℕ) {found : Option Customer}
    → find_customer shop org (some c) ≡ ok found
    → (customer : Customer) × (customer.id ≡ c) × (found ≡ some customer)
unfolding find_customer
find_customer-found shop org c e =
    let is_buyer = λ (x : Customer). x.id == c && x.organization == org && is_active x.status in
    let (customer, is_found, e1) =
      >>=-eq-ok (or_raise (find is_buyer shop.customers) (not_found (lit "Customer not found."))) _
        e in
    let met = find-test is_buyer shop.customers (or_raise-ok _ _ is_found) in
    (customer, ground (arith, met), sym (ok-injective e1))

-- A sale on credit is within the limit of its customer, the active one that the cashier's
-- organization has under the id of the request: what the customer owes by all open agreements after
-- the sale, the new one included, is at most the customer's credit limit. The sale adds to it just
-- what the checks before the transaction found left to pay, which is more than nothing.
pub create-limit :
    (shop : Shop) (now : Moment) (sale : ℕ) (actor : User) (dto : SaleRequest) (c : ℕ)
    (terms : CreditTerms) (st : State) {st' : State}
    → dto.customer ≡ some c
    → dto.credit ≡ some terms
    → create shop now sale actor dto st ≡ ok st'
    → (org : ℕ) × (customer : Customer) × (rows : List PreparedLine) × (s : Settlement)
      × (organization_id shop.directory actor.id ≡ ok org)
      × (find_customer shop org (some c) ≡ ok (some customer))
      × (prepare_sale shop now actor dto st ≡ ok (rows, s))
      × (s.paid < s.payable)
      × (outstanding_of c st'.agreements ≡ outstanding_of c st.agreements + (s.payable - s.paid))
      × (outstanding_of c st'.agreements ≤ cents customer.credit_limit)
unfolding create
create-limit shop now sale actor dto c terms st {st'} is_c is_terms e =
    let (prepared, is_prepared, e1) = >>=-eq-ok (prepare_sale shop now actor dto st) _ e in
    let (rows, s) = prepared in
    let (org, known, e2) = >>=-eq-ok (organization_id shop.directory actor.id) _ e1 in
    let rule = active_loyalty_rule shop org in
    let p = prepare_sale-IsPrepared shop now actor dto st rows s is_prepared in
    let buyer = subst (λ x. find_customer shop p.org x ≡ ok p.customer) is_c p.buyer in
    let (customer, is_id, is_customer) = find_customer-found shop p.org c buyer in
    let value = redemption_value (active_loyalty_rule shop p.org) in
    let totals = create_totals (map (λ r. r.priced) rows) in
    let checked =
      subst (λ x. check_payment now.ms x value dto st.agreements totals ≡ ok s) is_customer
        p.paid in
    let added = checkout-outstanding actor now sale dto rule rows s st c terms is_c is_terms e2 in
    let limit =
      check_payment-limit now.ms customer value dto st.agreements totals s terms is_terms checked in
    let paid = check_payment-IsPaid now.ms p.customer value dto st.agreements totals s p.paid in
    (
      p.org,
      customer,
      rows,
      s,
      p.known,
      buyer ∙ ap ok is_customer,
      is_prepared,
      paid.on_credit (rw is_terms refl),
      added,
      rw added (
          subst
            (λ i.
              outstanding_of i st.agreements + (s.payable - s.paid) ≤ cents customer.credit_limit)
            is_id limit),
    )
