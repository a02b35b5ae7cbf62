-- ===== src/Sales/Paid.antt =====
-- What is paid for a sale that `SalesService.create` completes.
use technova_pos_api.Sales.Quote.{quote_items-prepare_items}
use technova_pos_api.Sales.Prices.{create_totals-IsPriced}
use technova_pos_api.Sales.Limit.{checkout-outstanding}
use technova_pos_api.Sales.Accounts.{sell_lines-IsFramed}
use technova_pos_api.Sales.Frames.{settle_sale-payments, settle_sale-frame, update_loyalty-frame}
use technova_pos_api.Sales.Selling.{sell_lines}
use technova_pos_api.Sales.Pricing.{create_totals, Totals, cents, PricedLine}
use technova_pos_api.Sales.Accepted.{
  check_payment-IsPaid, IsPaid, IsPrepared, prepare_sale-IsPrepared,
}
use technova_pos_api.Sales.Settling.{update_loyalty, payment_row}
use technova_pos_api.Sales.Checks.{
  prepare_items, Settlement, outstanding_of, PreparedLine, tolerance, distance,
}
use technova_pos_api.Directory.{organization_id, User}
use technova_pos_api.Sales.State.{
  Sale, LoyaltyRule, SaleRequest, State, SalePayment, Customer, Shop, PaymentRow, CreditTerms,
}
use technova_pos_api.Sales.Customers.{
  active_loyalty_rule, redemption_value, lacks_store_credit, store_credit_payment, lacks_points,
  is_none, find_customer, check_customer,
}
use technova_pos_api.Sales.Checkout.{settle_sale, sale_row, prepare_sale, create, checkout}
use technova_pos_api.Calendar.{Moment}
use technova_pos_api.Prelude.Result.{ok-injective, raise_if-ok, raise_if-then, >>=-eq-ok, ok}
use technova_pos_api.Prelude.{
  min, ◌-◌, ◌&&◌, not, false, ◌∙◌, ap, sym, ltb, [], arith, map, ◌++◌, ◌∷◌, List, some, none,
  Option, true, refl, ◌≡◌, ◌<◌, ◌≤◌, ◌*◌, ◌+◌, ℕ, sum_of, filter, ==_iff, ◌==◌,
}

-- The payments of a sale.
abbrev pub paid_for : ℕ → List PaymentRow → ℕ
paid_for sale rows =
    sum_of (λ (p : PaymentRow). p.amount) (filter (λ (p : PaymentRow). p.sale == sale) rows)

-- Without credit what was given is the total, to within a cent. With credit there is a customer,
-- what was given is less than the total, and the customer owes the rest on top of the old debts.
abbrev pub IsPaidUp : Option CreditTerms → Option ℕ → ℕ → ℕ → State → State → Type 0
IsPaidUp none customer given total st st' = distance total given ≤ tolerance
IsPaidUp (some terms) customer given total st st' =
    (c : ℕ) × (customer ≡ some c)
    × (given < total)
    × (outstanding_of c st'.agreements + given ≡ outstanding_of c st.agreements + total)

-- The row of a sale beside the payments and the debts.
pub record IsPaidFor (shop : Shop) (now : Moment) (sale : ℕ) (actor : User) (dto : SaleRequest)
    (st st' : State) : Type 0 where
  pub org : ℕ
  pub known : organization_id shop.directory actor.id ≡ ok org
  pub rows : List PreparedLine
  pub prepared : prepare_items shop org now.ms dto.items ≡ ok rows
  pub row : Sale
  pub row_id : row.id ≡ sale
  pub recorded : st'.sales ≡ row ∷ st.sales
  pub charged :
      row.total ≡ sum_of (λ (l : PricedLine). l.total) (map (λ (r : PreparedLine). r.priced) rows)
  pub received :
      cents (paid_for sale st'.payments) ≡ cents (paid_for sale st.payments) + row.paid_total
  pub redeemed :
      distance row.loyalty_redemption_value
        (cents (dto.loyalty_points * redemption_value (active_loyalty_rule shop org)))
      ≤ tolerance
  pub within : row.loyalty_redemption_value ≤ row.total
  pub covered :
      IsPaidUp dto.credit dto.customer
        (row.paid_total + row.loyalty_redemption_value)
        row.total
        st
        st'
  pub not_over : row.paid_total + row.loyalty_redemption_value ≤ row.total + tolerance

paid_for-payment_row :
    (sale : ℕ) (now : Moment) (ps : List SalePayment) (rows : List PaymentRow)
    → paid_for sale (map (payment_row sale now) ps ++ rows)
      ≡ paid_for sale rows + sum_of (λ (p : SalePayment). p.amount) ps
paid_for-payment_row sale now [] rows = omega arith
paid_for-payment_row sale now (p ∷ ps) rows =
    let own : (sale == sale) ≡ true = (==_iff sale sale).1 refl in
    ground (arith, own, paid_for-payment_row sale now ps rows)

-- Credit is given to a customer that is registered.
check_customer-registered :
    (customer : Option Customer) (dto : SaleRequest) (st : State)
    → check_customer customer dto st ≡ ok tt
    → is_none dto.credit ≡ false
    → is_none customer ≡ false
unfolding check_customer
check_customer-registered customer dto st e on_credit =
    let (h1, e1) = raise_if-then (ltb 0 dto.loyalty_points && is_none customer) _ _ e in
    let (h2, e2) =
      raise_if-then
        (ltb 0 dto.loyalty_points && lacks_points customer dto.loyalty_points st.loyalty) _ _ e1 in
    let (h3, e3) =
      raise_if-then (ltb 0 (store_credit_payment dto.payments) && is_none customer) _ _ e2 in
    let (h4, e4) =
      raise_if-then
        (ltb 0 (store_credit_payment dto.payments)
          && lacks_store_credit customer (store_credit_payment dto.payments) st.store_credit)
        _ _ e3 in
    let last = raise_if-ok (not (is_none dto.credit) && is_none customer) _ e4 in
    ground (arith, on_credit, last)

find_customer-named :
    (shop : Shop) (org : ℕ) (id : Option ℕ) {found : Option Customer}
    → find_customer shop org id ≡ ok found
    → is_none found ≡ false
    → (c : ℕ) × (id ≡ some c)
unfolding find_customer
find_customer-named shop org none e h = ground (arith, e, h)
find_customer-named shop org (some c) e h = (c, refl)

checkout-payments :
    (actor : User) (now : Moment) (sale : ℕ) (dto : SaleRequest) (rule : Option LoyaltyRule)
    (rows : List PreparedLine) (s : Settlement) (st : State) {st' : State}
    → checkout actor now sale dto rule rows s st ≡ ok st'
    → st'.payments ≡ map (payment_row sale now) dto.payments ++ st.payments
unfolding checkout
checkout-payments actor now sale dto rule rows s st e =
    let entered = record st { sales = sale_row sale now actor dto s ∷ st.sales } in
    let (sold, is_sold, e1) = >>=-eq-ok (sell_lines actor now sale dto 0 rows entered) _ e in
    let settled = settle_sale sale now dto s sold in
    let (done, is_done, e2) =
      >>=-eq-ok (update_loyalty sale rule dto s.payable dto.customer settled) _ e1 in
    ap (λ (x : State). x.payments) (sym (ok-injective e2))
    ∙ (update_loyalty-frame sale rule dto s.payable dto.customer settled is_done).payments
    ∙ settle_sale-payments sale now dto s sold
    ∙ ap (λ ps. map (payment_row sale now) dto.payments ++ ps)
        (sell_lines-IsFramed actor now sale dto 0 rows entered is_sold).payments

checkout-sales :
    (actor : User) (now : Moment) (sale : ℕ) (dto : SaleRequest) (rule : Option LoyaltyRule)
    (rows : List PreparedLine) (s : Settlement) (st : State) {st' : State}
    → checkout actor now sale dto rule rows s st ≡ ok st'
    → st'.sales ≡ sale_row sale now actor dto s ∷ st.sales
unfolding checkout
checkout-sales actor now sale dto rule rows s st e =
    let entered = record st { sales = sale_row sale now actor dto s ∷ st.sales } in
    let (sold, is_sold, e1) = >>=-eq-ok (sell_lines actor now sale dto 0 rows entered) _ e in
    let settled = settle_sale sale now dto s sold in
    let (done, is_done, e2) =
      >>=-eq-ok (update_loyalty sale rule dto s.payable dto.customer settled) _ e1 in
    ap (λ (x : State). x.sales) (sym (ok-injective e2))
    ∙ (update_loyalty-frame sale rule dto s.payable dto.customer settled is_done).sales
    ∙ (settle_sale-frame sale now dto s sold).sales
    ∙ (sell_lines-IsFramed actor now sale dto 0 rows entered is_sold).sales

-- How the amounts of an accepted payment add up.
record IsAdded (value : ℕ) (dto : SaleRequest) (totals : Totals) (s : Settlement) : Type 0 where
  same : s.totals ≡ totals
  split : s.payable + s.redemption ≡ totals.total
  worth : distance s.redemption (cents (dto.loyalty_points * value)) ≤ tolerance
  given : s.paid ≡ cents (sum_of (λ (p : SalePayment). p.amount) dto.payments)

IsPaid-IsAdded :
    (value : ℕ) (dto : SaleRequest) (totals : Totals) (s : Settlement)
    → IsPaid value dto totals s
    → IsAdded value dto totals s
IsPaid-IsAdded value dto totals s paid =
    let is_min : s.redemption ≡ min totals.total (cents (dto.loyalty_points * value)) =
      ap (λ (x : Settlement). x.redemption) paid.amounts in
    let left : s.payable ≡ totals.total - min totals.total (cents (dto.loyalty_points * value)) =
      ap (λ (x : Settlement). x.payable) paid.amounts in
    record {
      same = ap (λ (x : Settlement). x.totals) paid.amounts;
      split = omega (arith, is_min, left);
      worth = omega (arith, is_min, paid.redeemed);
      given = ap (λ (x : Settlement). x.paid) paid.amounts;
    }

checkout-IsPaidUp :
    (shop : Shop) (now : Moment) (sale : ℕ) (actor : User) (dto : SaleRequest)
    (rule : Option LoyaltyRule) (rows : List PreparedLine) (s : Settlement) (st : State)
    {st' : State} (credit : Option CreditTerms)
    → (p : IsPrepared shop now actor dto st rows s) → dto.credit ≡ credit
    → checkout actor now sale dto rule rows s st ≡ ok st'
    → IsPaidUp credit dto.customer (s.paid + s.redemption) s.totals.total st st'
checkout-IsPaidUp shop now sale actor dto rule rows s st none p is_credit e =
    let value = redemption_value (active_loyalty_rule shop p.org) in
    let totals = create_totals (map (λ (r : PreparedLine). r.priced) rows) in
    let paid = check_payment-IsPaid now.ms p.customer value dto st.agreements totals s p.paid in
    let added = IsPaid-IsAdded value dto totals s paid in
    let total = ap (λ (t : Totals). t.total) added.same in
    omega (arith, paid.cash (ap is_none is_credit), added.split, total)
checkout-IsPaidUp shop now sale actor dto rule rows s st (some terms) p is_credit e =
    let value = redemption_value (active_loyalty_rule shop p.org) in
    let totals = create_totals (map (λ (r : PreparedLine). r.priced) rows) in
    let paid = check_payment-IsPaid now.ms p.customer value dto st.agreements totals s p.paid in
    let added = IsPaid-IsAdded value dto totals s paid in
    let total = ap (λ (t : Totals). t.total) added.same in
    let on_credit = ap is_none is_credit in
    let (c, is_c) =
      find_customer-named shop p.org dto.customer p.buyer
        (check_customer-registered p.customer dto st p.checked on_credit) in
    let below = paid.on_credit on_credit in
    let owed = checkout-outstanding actor now sale dto rule rows s st c terms is_c is_credit e in
    (
      c,
      is_c,
      omega (arith, below, added.split, total),
      omega (arith, owed, below, added.split, total),
    )

-- A completed sale is paid for, in exact amounts. Its total is that of its lines. Its payments and
-- what its points redeem make up the total: to within a cent without credit, with the new debt of
-- the customer on credit; and they exceed it by no more than a cent. The points are worth what is
-- redeemed for them to within a cent, and that is never more than the total.
pub create-IsPaidFor :
    (shop : Shop) (now : Moment) (sale : ℕ) (actor : User) (dto : SaleRequest) (st : State)
    {st' : State}
    → create shop now sale actor dto st ≡ ok st'
    → IsPaidFor shop now sale actor dto st st'
unfolding create
create-IsPaidFor shop now sale actor dto st {st'} e =
    let (prepared, is_prepared, e1) = >>=-eq-ok (prepare_sale shop now actor dto st) _ e in
    let (rows, s) = prepared in
    let (org, known, e2) = >>=-eq-ok (organization_id shop.directory actor.id) _ e1 in
    let p = prepare_sale-IsPrepared shop now actor dto st rows s is_prepared in
    let value = redemption_value (active_loyalty_rule shop p.org) in
    let lines = map (λ (r : PreparedLine). r.priced) rows in
    let paid =
      check_payment-IsPaid now.ms p.customer value dto st.agreements (create_totals lines) s
        p.paid in
    let added = IsPaid-IsAdded value dto (create_totals lines) s paid in
    let total = ap (λ (t : Totals). t.total) added.same in
    let (found, priced) = quote_items-prepare_items shop p.org now.ms dto.items p.lines in
    let rule = active_loyalty_rule shop org in
    let all_paid = checkout-payments actor now sale dto rule rows s st e2 in
    record {
      org = p.org;
      known = p.known;
      rows = rows;
      prepared = p.lines;
      row = sale_row sale now actor dto s;
      row_id = refl;
      recorded = checkout-sales actor now sale dto rule rows s st e2;
      charged = total ∙ (create_totals-IsPriced lines priced).1;
      received =
          ap (λ ps. cents (paid_for sale ps)) all_paid
          ∙ omega (arith, paid_for-payment_row sale now dto.payments st.payments, added.given);
      redeemed = added.worth;
      within = omega (arith, added.split, total);
      covered = checkout-IsPaidUp shop now sale actor dto rule rows s st dto.credit p refl e2;
      not_over = omega (arith, paid.not_over, added.split, total);
    }
