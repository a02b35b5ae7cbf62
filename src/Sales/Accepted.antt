-- ===== src/Sales/Accepted.antt =====
-- What an accepted sale has passed, and what its amounts are.
use mathlib.Core.Path.{subst}
use technova_pos_api.Prelude.{
  suc, zero, ◌∙◌, ap, sym, ◌*◌, ltb, leb, ℕ, ◌+◌, ◌-◌, ◌≤◌, ◌<◌, ◌≡◌, Bool, true, false, ◌&&◌, not,
  Option, List, map, find, arith, any,
}
use technova_pos_api.Prelude.Result.{
  not_found, lit, bad_request, ok, >>=-eq-ok, raise_if, or_raise, raise_if-ok, ok_pair-injective,
  ok-injective,
}
use technova_pos_api.Directory.{User, organization_id}
use technova_pos_api.Calendar.{Moment}
use technova_pos_api.Payment.{is_credit}
use technova_pos_api.Sales.Pricing.{Totals, create_totals, cents}
use technova_pos_api.Sales.State.{Shop, State, Customer, SaleRequest, CreditAgreement}
use technova_pos_api.Sales.Customers.{
  may_sell_at, find_customer, active_loyalty_rule, redemption_value, check_customer, is_none,
}
use technova_pos_api.Sales.Checks.{
  check_credit, distance, PreparedLine, Settlement, missing_products, prepare_items, check_payment,
  settle_totals, tolerance,
}
use technova_pos_api.Sales.Checkout.{prepare_sale}
use technova_pos_api.Sales.Quote.{quote, quote_items-prepare_items, quote_totals-create_totals}

-- What `prepare_sale` found on the way.
pub record IsPrepared (shop : Shop) (now : Moment) (actor : User) (dto : SaleRequest) (st : State)
    (rows : List PreparedLine) (s : Settlement) : Type 0 where
  pub org : ℕ
  pub customer : Option Customer
  pub known : organization_id shop.directory actor.id ≡ ok org
  pub buyer : find_customer shop org dto.customer ≡ ok customer
  pub checked : check_customer customer dto st ≡ ok tt
  pub offered : missing_products shop org (map (λ i. i.product) dto.items) ≡ false
  pub lines : prepare_items shop org now.ms dto.items ≡ ok rows
  pub paid :
      check_payment now.ms customer
        (redemption_value (active_loyalty_rule shop org))
        dto
        st.agreements
        (create_totals (map (λ r. r.priced) rows))
      ≡ ok s

pub prepare_sale-IsPrepared :
    (shop : Shop) (now : Moment) (actor : User) (dto : SaleRequest) (st : State)
    (rows : List PreparedLine) (s : Settlement)
    → prepare_sale shop now actor dto st ≡ ok (rows, s)
    → IsPrepared shop now actor dto st rows s
unfolding prepare_sale
prepare_sale-IsPrepared shop now actor dto st rows s e =
    let (_, plain, e1) =
      >>=-eq-ok
        (raise_if (any (λ p. is_credit p.method) dto.payments)
          (bad_request (lit "Use the customer-credit checkout endpoint for credit sales.")))
        _ e in
    let (org, known, e2) = >>=-eq-ok (organization_id shop.directory actor.id) _ e1 in
    let (branch, at_branch, e3) =
      >>=-eq-ok
        (or_raise (find (may_sell_at actor org dto.branch) shop.directory.branches)
          (not_found (lit "Active assigned branch not found.")))
        _ e2 in
    let (customer, buyer, e4) = >>=-eq-ok (find_customer shop org dto.customer) _ e3 in
    let (_, checked, e5) = >>=-eq-ok (check_customer customer dto st) _ e4 in
    let (_, offered, e6) =
      >>=-eq-ok
        (raise_if (missing_products shop org (map (λ i. i.product) dto.items))
          (bad_request (lit "One or more products are invalid.")))
        _ e5 in
    let (found, lines, e7) = >>=-eq-ok (prepare_items shop org now.ms dto.items) _ e6 in
    let totals = create_totals (map (λ r. r.priced) found) in
    let value = redemption_value (active_loyalty_rule shop org) in
    let (s', paid, last) =
      >>=-eq-ok (check_payment now.ms customer value dto st.agreements totals) _ e7 in
    let (same_rows, same_s) = ok_pair-injective last in
    record {
      org = org;
      customer = customer;
      known = known;
      buyer = buyer;
      checked = checked;
      offered = raise_if-ok _ _ offered;
      lines = lines ∙ ap ok same_rows;
      paid =
          subst
            (λ found_rows.
              check_payment now.ms customer value dto st.agreements
                (create_totals (map (λ r. r.priced) found_rows))
              ≡ ok s)
            same_rows (paid ∙ ap ok same_s);
    }

guard_cash :
    (cash : Bool) (a b : ℕ)
    → (cash && ltb tolerance (distance a b)) ≡ false
    → cash ≡ true
    → distance a b ≤ tolerance
guard_cash cash a b h c = ground arith

guard_credit : (cash : Bool) (a b : ℕ) → (not cash && leb a b) ≡ false → cash ≡ false → b < a
guard_credit cash a b h c = ground arith

guard_over : (a b : ℕ) → ltb (a + tolerance) b ≡ false → b ≤ a + tolerance
guard_over a b h = ground arith

guard_redeemed :
    (points value total : ℕ)
    → (ltb 0 points && ltb (total + tolerance) (cents (points * value))) ≡ false
    → cents (points * value) ≤ total + tolerance
guard_redeemed zero value total h = omega arith
guard_redeemed (suc points) value total h = ground (arith, h)

-- The amounts of an accepted payment, and how far it may miss what is to be paid.
pub record IsPaid (value : ℕ) (dto : SaleRequest) (totals : Totals) (s : Settlement) : Type 0 where
  pub amounts : s ≡ settle_totals totals (cents (dto.loyalty_points * value)) dto.payments
  pub redeemed : cents (dto.loyalty_points * value) ≤ totals.total + tolerance
  pub cash : is_none dto.credit ≡ true → distance s.payable s.paid ≤ tolerance
  pub on_credit : is_none dto.credit ≡ false → s.paid < s.payable
  pub not_over : s.paid ≤ s.payable + tolerance

pub check_payment-IsPaid :
    (now : ℕ) (customer : Option Customer) (value : ℕ) (dto : SaleRequest)
    (agreements : List CreditAgreement) (totals : Totals) (s : Settlement)
    → check_payment now customer value dto agreements totals ≡ ok s
    → IsPaid value dto totals s
unfolding check_payment
check_payment-IsPaid now customer value dto agreements totals s e =
    let redeemed = cents (dto.loyalty_points * value) in
    let t = settle_totals totals redeemed dto.payments in
    let (_, c1, e1) =
      >>=-eq-ok
        (raise_if (ltb 0 dto.loyalty_points && ltb (totals.total + tolerance) redeemed)
          (bad_request (lit "Loyalty point redemption cannot exceed the sale total.")))
        _ e in
    let (_, c2, e2) =
      >>=-eq-ok
        (raise_if (is_none dto.credit && ltb tolerance (distance t.payable t.paid))
          (bad_request (lit "Payment total must equal the sale total.")))
        _ e1 in
    let (_, c3, e3) =
      >>=-eq-ok
        (raise_if (not (is_none dto.credit) && leb t.payable t.paid)
          (bad_request (lit "A credit sale must have a balance due.")))
        _ e2 in
    let (_, c4, e4) =
      >>=-eq-ok
        (raise_if (ltb (t.payable + tolerance) t.paid)
          (bad_request (lit "Payment total cannot exceed the sale total.")))
        _ e3 in
    let (_, c5, e5) =
      >>=-eq-ok (check_credit now customer (t.payable - t.paid) agreements dto.credit) _ e4 in
    let same = ok-injective e5 in
    record {
      amounts = sym same;
      redeemed = guard_redeemed dto.loyalty_points value totals.total (raise_if-ok _ _ c1);
      cash = rw (← same) (guard_cash (is_none dto.credit) t.payable t.paid (raise_if-ok _ _ c2));
      on_credit =
          rw (← same) (guard_credit (is_none dto.credit) t.payable t.paid (raise_if-ok _ _ c3));
      not_over = rw (← same) (guard_over t.payable t.paid (raise_if-ok _ _ c4));
    }

-- A sale that goes through charges, line by line and in total, what a quote for the same
-- items shows at the same time: the quote is never refused, and its totals are the sale's.
pub quote-prepare_sale :
    (shop : Shop) (now : Moment) (actor : User) (dto : SaleRequest) (st : State)
    (rows : List PreparedLine) (s : Settlement)
    → prepare_sale shop now actor dto st ≡ ok (rows, s)
    → quote shop now.ms actor.id dto.items ≡ ok (map (λ r. r.priced) rows, s.totals)
unfolding quote
quote-prepare_sale shop now actor dto st rows s e =
    let p = prepare_sale-IsPrepared shop now actor dto st rows s e in
    let charged = map (λ (r : PreparedLine). r.priced) rows in
    let (lines, priced) = quote_items-prepare_items shop p.org now.ms dto.items p.lines in
    let value = redemption_value (active_loyalty_rule shop p.org) in
    let paid =
      check_payment-IsPaid now.ms p.customer value dto st.agreements (create_totals charged) s
        p.paid in
    rw (p.known, p.offered, lines, quote_totals-create_totals charged priced)
      (ap (λ t. ok (charged, t)) (sym (ap (λ (x : Settlement). x.totals) paid.amounts)))
