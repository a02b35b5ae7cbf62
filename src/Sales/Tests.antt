-- ===== src/Sales/Tests.antt =====
-- A sale on credit, in figures: two pieces of a product of 900.00 with 10 % off and 5 % tax, for a
-- customer who redeems 20 points and pays 500.00 in cash.
use technova_pos_api.Stock.Ledger.{on_hand, Reconciles}
use technova_pos_api.Sales.Accounts.{points_or_zero, create-points, IsEarned}
use technova_pos_api.Sales.Limit.{create-limit}
use technova_pos_api.Sales.Goods.{create-IsSold, sold_quantity}
use technova_pos_api.Sales.Quote.{quote}
use technova_pos_api.Sales.Accepted.{quote-prepare_sale}
use technova_pos_api.Sales.Charged.{listed, asked, prepare_sale-totals}
use technova_pos_api.Sales.Paid.{IsPaidFor, create-IsPaidFor}
use technova_pos_api.Sales.Prices.{IsPriced}
use technova_pos_api.Sales.Pricing.{PricedLine}
use technova_pos_api.Sales.Customers.{active_loyalty_rule, points_of}
use technova_pos_api.Sales.Checks.{outstanding_of}
use technova_pos_api.Sales.Customers.{
  find_customer, check_customer, lacks_points, store_credit_payment,
}
use technova_pos_api.Sales.Checks.{
  outstanding_of, PreparedLine, Settlement, check_payment, prepare_items, prepare_item,
  check_credit, check_installments, missing_products,
}
use technova_pos_api.Directory.{organization_id}
use technova_pos_api.Stock.{take_level}
use technova_pos_api.Sales.Pricing.{
  cents, prepare_line, create_discount, discount_by, is_eligible, create_totals,
}
use technova_pos_api.Sales.Selling.{sell_lines, sell_line, sell_stock, find_unit}
use technova_pos_api.Sales.Settling.{
  open_agreement, spend_store_credit, update_loyalty, redeem_points, award_points, earned_points,
}
use technova_pos_api.Sales.Checkout.{create, prepare_sale, checkout}
use technova_pos_api.Prelude.{
  All, ◌==◌, if◌then◌else◌, arith, ◌-◌, ◌+◌, ◌<◌, sum_of, ◌≤◌, ℕ, map, List, ◌≡◌, refl, false, none,
  some, [], ◌∷◌,
}
use technova_pos_api.Prelude.Result.{ok, err}
use technova_pos_api.Directory.{User, RecordStatus}
use technova_pos_api.Calendar.{Moment}
use technova_pos_api.Payment.{PaymentMethod}
use technova_pos_api.Sales.Pricing.{DiscountType}
use technova_pos_api.Sales.State.{
  Shop, State, SaleRequest, CreditTerms, Customer, LoyaltyRule, ShopProduct,
}
use technova_pos_api.Sales.Checkout.{create, prepare_sale}

abbrev lamp : ShopProduct
lamp = record {
  id = 5;
  organization = 1;
  status = RecordStatus.active;
  track_serials = false;
  priced = record {
    id = 5;
    selling_price = 90000;
    tax_rate = 50000;
    rules =
        record {
          id = 3;
          kind = DiscountType.percentage;
          value = 100000;
          minimum_quantity = 1000;
          maximum_quantity = none;
          starts_at = none;
          ends_at = none;
        }
        ∷ [];
  };
  warranty_policy = none;
}

abbrev buyer : Customer
buyer = record { id = 7; organization = 1; status = RecordStatus.active; credit_limit = 200000 }

abbrev points_rule : LoyaltyRule
points_rule = record {
  id = 2;
  organization = 1;
  status = RecordStatus.active;
  spend_amount = 10000;
  points_awarded = 3;
  redemption_value = 100;
}

abbrev shop : Shop
shop = record {
  directory = record {
    members = record { user = 4; organization = 1 } ∷ [];
    branches =
        record { id = 9; organization = 1; status = RecordStatus.active; users = 4 ∷ [] } ∷ [];
    products = record { id = 5; organization = 1; track_serials = false } ∷ [];
  };
  customers = buyer ∷ [];
  products = lamp ∷ [];
  loyalty_rules = points_rule ∷ [];
}

abbrev cashier : User
cashier = record { id = 4; super_admin = false }

abbrev noon : Moment
noon = record { ms = 1000; date = record { year = 2025; month = 0; day = 15; time = 43200 } }

abbrev terms : CreditTerms
terms = record { due_date = 5000; installments = none }

abbrev request : SaleRequest
request = record {
  branch = 9;
  customer = some 7;
  items = record { product = 5; quantity = 2000; serial = none } ∷ [];
  payments = record { method = PaymentMethod.cash; amount = 50000 } ∷ [];
  loyalty_points = 20;
  credit = some terms;
}

abbrev before : State
before = record {
  stock = record {
    levels = record { branch = 9; product = 5; on_hand = 6000; reserved = 0 } ∷ [];
    units = [];
    movements = [];
  };
  sales = [];
  items = [];
  discounts = [];
  payments = [];
  store_credit = [];
  store_credit_entries = [];
  agreements = [];
  loyalty = record { customer = 7; points = 25 } ∷ [];
  loyalty_entries = [];
  warranties = [];
  warranty_events = [];
  receipts = [];
  audits = [];
}

abbrev after : State
after = elim (create shop noon 1 cashier request before) [ ok st ↦ st | err _ ↦ before ]

created : create shop noon 1 cashier request before ≡ ok after
unfolding create prepare_sale organization_id find_customer check_customer lacks_points
    store_credit_payment missing_products prepare_items prepare_item prepare_line create_discount
    discount_by is_eligible create_totals check_payment check_credit check_installments checkout
    sell_lines sell_line sell_stock find_unit take_level open_agreement spend_store_credit
    update_loyalty redeem_points award_points earned_points
created = refl

-- The lines and the amounts that the checks before the transaction found.
abbrev charged : List PreparedLine × Settlement
charged = elim (prepare_sale shop noon cashier request before) [
  | ok found ↦ found
  | err _ ↦ ([], record { totals = create_totals []; redemption = 0; payable = 0; paid = 0 })
]

abbrev rows : List PreparedLine
rows = charged.0

abbrev settlement : Settlement
settlement = charged.1

prepared : prepare_sale shop noon cashier request before ≡ ok (rows, settlement)
unfolding prepare_sale organization_id find_customer check_customer lacks_points
    store_credit_payment missing_products prepare_items prepare_item prepare_line create_discount
    discount_by is_eligible create_totals check_payment check_credit check_installments
prepared = refl

-- Two pieces of 900.00, less 10 %, with 5 % tax, less 20 points: 1681.00 to pay.
payable_test : settlement.payable ≡ cents 168100
unfolding prepare_sale organization_id find_customer check_customer lacks_points
    store_credit_payment missing_products prepare_items prepare_item prepare_line create_discount
    discount_by is_eligible create_totals check_payment check_credit check_installments
payable_test = refl

abbrev opening : ℕ → ℕ → ℕ
opening b p = on_hand b p before.stock.levels

opening-Reconciles : Reconciles opening before.stock
opening-Reconciles = λ b p. ground arith

create-IsSold_example :
    (found : List PreparedLine) × (s : Settlement) × (prepare_sale shop noon cashier request before
      ≡ ok (found, s))
    × ((b p : ℕ)
        → on_hand b p after.stock.levels + (if 9 == b then sold_quantity p found else 0)
          ≡ on_hand b p before.stock.levels)
    × Reconciles opening after.stock
create-IsSold_example =
    create-IsSold opening shop noon 1 cashier request before created opening-Reconciles

create-points_example :
    (org : ℕ) × (found : List PreparedLine) × (s : Settlement) × (earned : ℕ) × (organization_id
        shop.directory 4
      ≡ ok org)
    × (prepare_sale shop noon cashier request before ≡ ok (found, s))
    × IsEarned (active_loyalty_rule shop org) s.payable earned
    × (20 ≤ points_or_zero 7 before.loyalty)
    × (points_of 7 after.loyalty ≡ some (points_or_zero 7 before.loyalty - 20 + earned))
create-points_example = create-points shop noon 1 cashier request 7 before refl created

create-limit_example :
    (org : ℕ) × (customer : Customer) × (found : List PreparedLine) × (s : Settlement)
    × (organization_id shop.directory 4 ≡ ok org)
    × (find_customer shop org (some 7) ≡ ok (some customer))
    × (prepare_sale shop noon cashier request before ≡ ok (found, s))
    × (s.paid < s.payable)
    × (outstanding_of 7 after.agreements
        ≡ outstanding_of 7 before.agreements + (s.payable - s.paid))
    × (outstanding_of 7 after.agreements ≤ cents customer.credit_limit)
create-limit_example = create-limit shop noon 1 cashier request 7 terms before refl refl created

quote-prepare_sale_example :
    quote shop 1000 4 request.items ≡ ok (map (λ r. r.priced) rows, settlement.totals)
quote-prepare_sale_example =
    quote-prepare_sale shop noon cashier request before rows settlement prepared

create-IsPaidFor_example : IsPaidFor shop noon 1 cashier request before after
create-IsPaidFor_example = create-IsPaidFor shop noon 1 cashier request before created

prepare_sale-totals_example :
    let lines = map (λ (r : PreparedLine). r.priced) rows in
    (listed rows ≡ asked request.items)
    × All IsPriced lines
    × (settlement.totals.discount_total ≤ settlement.totals.subtotal)
    × (settlement.totals.total ≡ sum_of (λ (l : PricedLine). l.total) lines)
prepare_sale-totals_example =
    prepare_sale-totals shop noon cashier request before rows settlement prepared
