-- ===== src/Sales/Pricing.antt =====
-- The price of a sale line, as `SalesService.create` prepares it and as `SalesService.quote` shows
-- it. Amounts are exact, in units of 10 ^ -17 of the currency: prices are cents, quantities
-- thousandths, rates and discount values ten-thousandths, as their columns hold them.
use technova_pos_api.Prelude.{
  ℕ, ◌+◌, ◌-◌, ◌*◌, ◌/◌, ◌^◌, min, Bool, true, ◌&&◌, Option, none, some, List, [], ◌∷◌, leb, find,
  filter, sum_of,
}

-- `enum DiscountType`
pub data DiscountType : Type 0 where
  percentage fixed_amount unit_price : DiscountType

pub record DiscountRule : Type 0 where
  pub id : ℕ
  pub kind : DiscountType
  pub value : ℕ
  pub minimum_quantity : ℕ
  pub maximum_quantity : Option ℕ
  pub starts_at : Option ℕ
  pub ends_at : Option ℕ

-- The columns of `Product` that pricing reads, with the active discount rules, those of the highest
-- priority first.
pub record PricedProduct : Type 0 where
  pub id : ℕ
  pub selling_price : ℕ
  pub tax_rate : ℕ
  pub rules : List DiscountRule

-- Cents, and ten-thousandths, as exact amounts.
abbrev pub cents : ℕ → ℕ
cents n = n * 10 ^ 15

-- `amount * rate / 100`, for a rate in ten-thousandths.
abbrev pub percent : ℕ → ℕ → ℕ
percent amount rate = amount * rate / 10 ^ 6

abbrev pub no_later : Option ℕ → ℕ → Bool
no_later none now = true
no_later (some t) now = leb t now

abbrev pub no_earlier : Option ℕ → ℕ → Bool
no_earlier none now = true
no_earlier (some t) now = leb now t

abbrev pub up_to : Option ℕ → ℕ → Bool
up_to none quantity = true
up_to (some q) quantity = leb quantity q

-- The condition of the `filter` of `create` and of the `find` of `quote`.
unfoldable pub is_eligible : ℕ → ℕ → DiscountRule → Bool
is_eligible now quantity r =
    leb r.minimum_quantity quantity
    && up_to r.maximum_quantity quantity
    && no_later r.starts_at now
    && no_earlier r.ends_at now

-- `Number(product.sellingPrice) * quantity`
abbrev pub gross_of : ℕ → ℕ → ℕ
gross_of price quantity = price * quantity * 10 ^ 12

-- The three kinds of discount; `Math.max(0, ...)` is the subtraction that stops at 0.
unfoldable pub discount_by : DiscountType → ℕ → ℕ → ℕ → ℕ
discount_by DiscountType.percentage value gross quantity = percent gross value
discount_by DiscountType.fixed_amount value gross quantity = value * 10 ^ 13
discount_by DiscountType.unit_price value gross quantity = gross - value * quantity * 10 ^ 10

abbrev pub rule_discount : DiscountRule → ℕ → ℕ → ℕ
rule_discount r gross quantity = discount_by r.kind r.value gross quantity

pub record PricedLine : Type 0 where
  pub product : ℕ
  pub quantity : ℕ
  pub unit_price : ℕ
  pub discount : ℕ
  pub tax : ℕ
  pub total : ℕ
  pub rule : Option ℕ

abbrev pub first : List DiscountRule → Option DiscountRule
first [] = none
first (r ∷ rs) = some r

-- `if (rule) { ...; discount = Math.min(gross, discount) }`
unfoldable pub create_discount : Option DiscountRule → ℕ → ℕ → ℕ
create_discount none gross quantity = 0
create_discount (some r) gross quantity = min gross (rule_discount r gross quantity)

-- `create`: the first of the eligible rules.
unfoldable pub prepare_line : ℕ → PricedProduct → ℕ → PricedLine
prepare_line now product quantity =
    let gross = gross_of product.selling_price quantity in
    let eligible = filter (is_eligible now quantity) product.rules in
    let rule = first eligible in
    let discount = create_discount rule gross quantity in
    let taxable = gross - discount in
    let tax = percent taxable product.tax_rate in
    record {
      product = product.id;
      quantity = quantity;
      unit_price = product.selling_price;
      discount = discount;
      tax = tax;
      total = taxable + tax;
      rule = elim rule [ none ↦ none | some r ↦ some r.id ];
    }

-- `quote`: a `find`, and the minimum taken with a rule or without.
unfoldable pub quote_discount : Option DiscountRule → ℕ → ℕ → ℕ
quote_discount none gross quantity = min gross 0
quote_discount (some r) gross quantity = min gross (rule_discount r gross quantity)

unfoldable pub quote_line : ℕ → PricedProduct → ℕ → PricedLine
quote_line now product quantity =
    let gross = gross_of product.selling_price quantity in
    let rule = find (is_eligible now quantity) product.rules in
    let discount = quote_discount rule gross quantity in
    let tax = percent (gross - discount) product.tax_rate in
    record {
      product = product.id;
      quantity = quantity;
      unit_price = product.selling_price;
      discount = discount;
      tax = tax;
      total = gross - discount + tax;
      rule = elim rule [ none ↦ none | some r ↦ some r.id ];
    }

-- `subtotal`, `discountTotal`, `taxTotal` and `total`.
pub record Totals : Type 0 where
  pub subtotal : ℕ
  pub discount_total : ℕ
  pub tax_total : ℕ
  pub total : ℕ

abbrev pub line_gross : PricedLine → ℕ
line_gross l = gross_of l.unit_price l.quantity

unfoldable pub create_totals : List PricedLine → Totals
create_totals lines =
    let subtotal = sum_of line_gross lines in
    let discount_total = sum_of (λ l. l.discount) lines in
    let tax_total = sum_of (λ l. l.tax) lines in
    record {
      subtotal = subtotal;
      discount_total = discount_total;
      tax_total = tax_total;
      total = subtotal - discount_total + tax_total;
    }

unfoldable pub quote_totals : List PricedLine → Totals
quote_totals lines = record {
  subtotal = sum_of line_gross lines;
  discount_total = sum_of (λ l. l.discount) lines;
  tax_total = sum_of (λ l. l.tax) lines;
  total = sum_of (λ l. l.total) lines;
}
