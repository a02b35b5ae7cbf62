-- ===== src/Returns/Tests.antt =====
-- A sale of three pieces for 300, with 100 still owed in two installments: two pieces come back.
use technova_pos_api.Sales.State.{SaleStatus}
use technova_pos_api.Payment.{PaymentMethod}
use technova_pos_api.Returns.Money.{create-money, store_credit_total, refunded_total}
use technova_pos_api.Returns.Refund.{cash_refund, credit_offset, check_refund}
use technova_pos_api.Returns.Goods.{returned_rows, create-stock, marked, put_back}
use technova_pos_api.Stock.Ledger.{incoming, outgoing, on_hand}
use technova_pos_api.Sales.Pricing.{cents}
use technova_pos_api.Returns.Prepare.{
  refund_of, returned_of, prepare_line, prepare_lines, find_sale, PreparedReturn,
}
use technova_pos_api.Returns.Counted.{create-IsWithinSold}
use technova_pos_api.Returns.Within.{sold_of, IsWithinSold}
use technova_pos_api.Returns.State.{State, Sale, ReturnRequest}
use technova_pos_api.Returns.Installments.{create-IsTakenOff, IsTakenOff, IsBalanced}
use technova_pos_api.Returns.Create.{total_refund, create, ReturnResult}
use technova_pos_api.Directory.{find_branch, organization_id, RecordStatus, User, Directory}
use technova_pos_api.Credit.State.{CreditStatus, InstallmentStatus, Installment}
use technova_pos_api.Prelude.Int.{◌≤ℤ◌, neg_part, pos_part, pos}
use technova_pos_api.Prelude.Result.{Result, err, ok}
use technova_pos_api.Prelude.{
  min, arith, ◌≤◌, [], ◌∷◌, List, some, none, false, true, refl, ◌≡◌, ◌+◌, ℕ, All, sum_of,
}

abbrev directory : Directory
directory = record {
  members = record { user = 4; organization = 1 } ∷ [];
  branches = record { id = 2; organization = 1; status = RecordStatus.active; users = 4 ∷ [] } ∷ [];
  products = [];
}

abbrev cashier : User
cashier = record { id = 4; super_admin = false }

abbrev installment : ℕ → ℕ → Installment
installment id due = record {
  id = id;
  amount_due = cents due;
  amount_paid = 0;
  due_date = 9;
  status = InstallmentStatus.pending;
  paid_at = none;
}

abbrev start : State
start = record {
  stock = record { levels = []; units = []; movements = [] };
  sales =
      record {
        id = 1;
        branch = 2;
        customer = some 7;
        status = SaleStatus.completed;
        paid_total = pos (cents 20000);
        balance_due = pos (cents 10000);
      }
      ∷ [];
  items =
      record {
        id = 11;
        sale = 1;
        product = 5;
        quantity = 3000;
        line_total = cents 30000;
        unit = none;
        warranty = none;
      }
      ∷ [];
  returns = [];
  return_items = [];
  payments = [];
  store_credit = [];
  store_credit_entries = [];
  loyalty = record { customer = 7; points = 1 } ∷ [];
  loyalty_entries = [];
  agreements =
      record {
        id = 3;
        sale = 1;
        principal = pos (cents 10000);
        outstanding = cents 10000;
        status = CreditStatus.active;
        installments = installment 2 6000 ∷ installment 1 4000 ∷ [];
      }
      ∷ [];
  warranties = [];
  warranty_events = [];
  audits = [];
}

abbrev request : ReturnRequest
request = record {
  sale = 1;
  reason = [];
  refund_method = some PaymentMethod.cash;
  resolution = none;
  items = record { sale_item = 11; quantity = 2000; condition = none; restock = some true } ∷ [];
}

abbrev or_start : Result (ReturnResult × State) → ReturnResult × State
or_start (ok r) = r
or_start (err _) = (
  record {
    return = 0;
    total = 0;
    credit_offset = pos 0;
    cash_refund = 0;
    status = SaleStatus.draft;
  },
  start,
)

abbrev returned : ReturnResult × State
returned = or_start (create directory 8 21 cashier request start)

is_returned : create directory 8 21 cashier request start ≡ ok (returned.0, returned.1)
unfolding create organization_id find_sale prepare_lines prepare_line check_refund returned_of
    refund_of credit_offset cash_refund find_branch total_refund
is_returned = refl

pays_half : (returned.0.cash_refund ≡ cents 10000) × (returned.0.credit_offset ≡ pos (cents 10000))
unfolding create organization_id find_sale prepare_lines prepare_line check_refund returned_of
    refund_of credit_offset cash_refund total_refund find_branch
pays_half = (refl, refl)

nothing_yet : (j : ℕ) → returned_of j [] [] ≤ sold_of j start.items
unfolding returned_of
nothing_yet j = omega arith

create-IsWithinSold_example : IsWithinSold returned.1
create-IsWithinSold_example =
    create-IsWithinSold directory 8 21 cashier request start is_returned tt (λ j. nothing_yet j)

create-money_example :
    (org : ℕ) × (sale : Sale) × (find_sale directory org 1 start ≡ ok sale)
    × (pos_part returned.0.credit_offset + returned.0.cash_refund
        ≡ returned.0.total + neg_part returned.0.credit_offset)
    × (returned.0.credit_offset ≤ℤ sale.balance_due)
    × (refunded_total returned.1.payments + store_credit_total returned.1.store_credit + 0
        ≡ 0 + 0 + returned.0.cash_refund)
create-money_example = create-money directory 8 21 cashier request start is_returned

create-stock_example :
    (sale : Sale) × (rows : List PreparedReturn) × (returned_rows directory cashier request start
      ≡ ok (sale, rows))
    × ((b p : ℕ)
        → (on_hand b p returned.1.stock.levels ≡ 0 + sum_of (put_back sale b p) rows)
          × (on_hand b p returned.1.stock.levels
                + outgoing b p returned.1.stock.movements
                + sum_of (marked sale b p) rows
              ≡ 0 + incoming b p returned.1.stock.movements))
create-stock_example =
    create-stock (λ b p. 0) directory 8 21 cashier request start is_returned (λ b p. refl)

create-IsTakenOff_example :
    (org : ℕ) × (sale : Sale) × (organization_id directory 4 ≡ ok org)
    × (find_sale directory org 1 start ≡ ok sale)
    × IsTakenOff sale.id
        (min returned.0.total (pos_part sale.balance_due))
        start.agreements
        returned.1.agreements
    × All IsBalanced returned.1.agreements
create-IsTakenOff_example =
    create-IsTakenOff directory 8 21 cashier request start is_returned (refl, tt)
