-- ===== src/Sales/Checks.antt =====
-- `SalesService.create` up to its transaction: what is bought, and whether it is paid.
use technova_pos_api.Prelude.{
  ℕ, ◌+◌, ◌-◌, ◌*◌, min, Bool, true, false, ◌&&◌, ◌||◌, not, Option, none, some, List, [], ◌∷◌,
  ◌==◌, ltb, leb, if◌then◌else◌, find, any, filter, length, contains, sum_of,
}
use technova_pos_api.Prelude.Result.{
  Result, ok, or_raise, raise_if, ◌>>=◌, ◌>>◌, bad_request, conflict, lit, about,
}
use technova_pos_api.Prelude.Text.{Text}
use technova_pos_api.Directory.{is_active}
use technova_pos_api.Stock.{piece}
use technova_pos_api.Credit.State.{CreditStatus}
use technova_pos_api.Sales.Pricing.{PricedLine, Totals, cents, prepare_line}
use technova_pos_api.Sales.State.{
  Shop, Customer, ShopProduct, SaleRequest, SaleItemInput, SalePayment, CreditTerms,
  CreditInstallmentInput, CreditAgreement,
}
use technova_pos_api.Sales.Customers.{is_none}

-- A sale line with the product that was found for it.
pub record PreparedLine : Type 0 where
  pub product : ShopProduct
  pub serial : Option Text
  pub priced : PricedLine

-- An absent or empty serial number.
abbrev pub no_serial : Option Text → Bool
no_serial none = true
no_serial (some []) = true
no_serial (some _) = false

abbrev pub on_sale : ℕ → ShopProduct → Bool
on_sale org p = p.organization == org && is_active p.status

-- `[...new Set(ids)]`
abbrev pub distinct : List ℕ → List ℕ
distinct [] = []
distinct (x ∷ xs) = if contains x xs then distinct xs else x ∷ distinct xs

unfoldable pub missing_products : Shop → ℕ → List ℕ → Bool
missing_products shop org ids = not (
    length (filter (λ p. contains p.id ids && on_sale org p) shop.products)
    == length (distinct ids))

unfoldable pub prepare_item : Shop → ℕ → ℕ → SaleItemInput → Result PreparedLine
prepare_item shop org now input = do
  product ←
      or_raise (find (λ p. p.id == input.product && on_sale org p) shop.products)
        (bad_request (lit "One or more products are invalid."))
  raise_if (product.track_serials && (no_serial input.serial || not (input.quantity == piece)))
      (bad_request (about "% requires one serial number per sale line." product.id))
  raise_if (not product.track_serials && not (no_serial input.serial))
      (bad_request (about "% is not serialized." product.id))
  ok (record {
    product = product;
    serial = input.serial;
    priced = prepare_line now product.priced input.quantity;
  })

unfoldable pub prepare_items : Shop → ℕ → ℕ → List SaleItemInput → Result (List PreparedLine)
prepare_items shop org now [] = ok []
prepare_items shop org now (i ∷ is) = do
  line ← prepare_item shop org now i
  rest ← prepare_items shop org now is
  ok (line ∷ rest)

-- What is to be paid, and what is paid, in exact units.
pub record Settlement : Type 0 where
  pub totals : Totals
  pub redemption : ℕ
  pub payable : ℕ
  pub paid : ℕ

-- 0.01
abbrev pub tolerance : ℕ
tolerance = cents 1

abbrev pub distance : ℕ → ℕ → ℕ
distance a b = (a - b) + (b - a)

abbrev pub settle_totals : Totals → ℕ → List SalePayment → Settlement
settle_totals totals redeemed payments =
    let redemption = min totals.total redeemed in
    record {
      totals = totals;
      redemption = redemption;
      payable = totals.total - redemption;
      paid = cents (sum_of (λ p. p.amount) payments);
    }

abbrev pub is_owing : CreditStatus → Bool
is_owing CreditStatus.active = true
is_owing CreditStatus.overdue = true
is_owing _ = false

-- What the customer owes by the open agreements.
abbrev pub outstanding_of : ℕ → List CreditAgreement → ℕ
outstanding_of c agreements =
    sum_of (λ a. a.outstanding) (filter (λ a. a.customer == c && is_owing a.status) agreements)

abbrev pub bad_installment_date : ℕ → ℕ → CreditInstallmentInput → Bool
bad_installment_date now due i = ltb due i.due_date || leb i.due_date now

unfoldable pub check_installments :
    ℕ → ℕ → ℕ → Option (List CreditInstallmentInput) → Result (Unit {0})
check_installments now due balance none = ok tt
check_installments now due balance (some is) = do
  raise_if (ltb tolerance (distance (cents (sum_of (λ i. i.amount) is)) balance))
      (bad_request (lit "Installment total must equal the credit balance."))
  raise_if (any (bad_installment_date now due) is) (
      bad_request
        (lit "Installment dates must be future dates no later than the agreement due date."))

-- The checks on the terms of a credit sale; without a customer they are not reached.
unfoldable pub check_credit :
    ℕ → Option Customer → ℕ → List CreditAgreement → Option CreditTerms → Result (Unit {0})
check_credit now customer balance agreements none = ok tt
check_credit now none balance agreements (some terms) = ok tt
check_credit now (some c) balance agreements (some terms) = do
  raise_if (leb terms.due_date now) (bad_request (lit "Credit due date must be in the future."))
  raise_if (ltb (cents c.credit_limit) (outstanding_of c.id agreements + balance))
      (conflict (lit "Customer credit limit would be exceeded."))
  check_installments now terms.due_date balance terms.installments

unfoldable pub check_payment :
    ℕ → Option Customer → ℕ → SaleRequest → List CreditAgreement → Totals → Result Settlement
check_payment now customer value dto agreements totals = do
  let redeemed = cents (dto.loyalty_points * value)
  let s = settle_totals totals redeemed dto.payments
  raise_if (ltb 0 dto.loyalty_points && ltb (totals.total + tolerance) redeemed)
      (bad_request (lit "Loyalty point redemption cannot exceed the sale total."))
  raise_if (is_none dto.credit && ltb tolerance (distance s.payable s.paid))
      (bad_request (lit "Payment total must equal the sale total."))
  raise_if (not (is_none dto.credit) && leb s.payable s.paid)
      (bad_request (lit "A credit sale must have a balance due."))
  raise_if (ltb (s.payable + tolerance) s.paid)
      (bad_request (lit "Payment total cannot exceed the sale total."))
  check_credit now customer (s.payable - s.paid) agreements dto.credit
  ok s
