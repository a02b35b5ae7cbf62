-- ===== src/Sales/Prices.antt =====
-- The prices of sale lines in `SalesService.create` and `SalesService.quote`, compared.
use technova_pos_api.Prelude.{
  ℕ, ◌+◌, ◌-◌, ◌≤◌, ◌≡◌, refl, inl, inr, Bool, Option, none, some, List, [], ◌∷◌, find, filter,
  sum_of, arith, All, Bool-cases,
}
use technova_pos_api.Sales.Pricing.{
  DiscountRule, PricedProduct, PricedLine, is_eligible, gross_of, first, create_discount,
  prepare_line, quote_discount, quote_line, line_gross, create_totals,
}

-- The first row that passes a filter is the one that `find` returns.
pub first-filter :
    (test : DiscountRule → Bool) (rs : List DiscountRule) → first (filter test rs) ≡ find test rs
first-filter test [] = refl
first-filter test (r ∷ rs) = elim (Bool-cases (test r)) [
  | inl met ↦ rw met
  | inr unmet ↦ rw unmet (first-filter test rs)
]

quote_discount-eq :
    (rule : Option DiscountRule) (gross quantity : ℕ)
    → quote_discount rule gross quantity ≡ create_discount rule gross quantity
unfolding quote_discount create_discount
quote_discount-eq none gross quantity = omega arith
quote_discount-eq (some r) gross quantity = refl

-- A quoted line is, in every field, the line that the sale charges.
pub quote_line-prepare_line :
    (now : ℕ) (product : PricedProduct) (quantity : ℕ)
    → quote_line now product quantity ≡ prepare_line now product quantity
unfolding quote_line prepare_line
quote_line-prepare_line now product quantity =
    let gross = gross_of product.selling_price quantity in
    rw (first-filter (is_eligible now quantity) product.rules)
      (rw (quote_discount-eq (find (is_eligible now quantity) product.rules) gross quantity) refl)

pub create_discount-le :
    (rule : Option DiscountRule) (gross quantity : ℕ) → create_discount rule gross quantity ≤ gross
unfolding create_discount
create_discount-le none gross quantity = omega arith
create_discount-le (some r) gross quantity = omega arith

-- A line whose total is the gross amount less the discount, and the tax on top.
pub record IsPriced (l : PricedLine) : Type 0 where
  pub within : l.discount ≤ line_gross l
  pub total_lem : l.total ≡ line_gross l - l.discount + l.tax

pub prepare_line-IsPriced :
    (now : ℕ) (product : PricedProduct) (quantity : ℕ)
    → IsPriced (prepare_line now product quantity)
unfolding prepare_line
prepare_line-IsPriced now product quantity = record {
  within = create_discount-le _ (gross_of product.selling_price quantity) quantity;
  total_lem = refl;
}

-- The totals of a sale: no discount exceeds the goods, and the total is that of the lines.
pub create_totals-IsPriced :
    (lines : List PricedLine)
    → All IsPriced lines
    → let t = create_totals lines in
      (t.discount_total ≤ t.subtotal) × (t.total ≡ sum_of (λ l. l.total) lines)
unfolding create_totals
create_totals-IsPriced [] h = omega arith
create_totals-IsPriced (l ∷ ls) h =
    let (le, eq) = create_totals-IsPriced ls h.1 in omega (arith, h.0.within, h.0.total_lem, le, eq)
