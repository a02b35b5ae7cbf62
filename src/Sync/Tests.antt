-- ===== src/Sync/Tests.antt =====
-- A batch of two operations, one of them of an unknown kind, over payloads that are numbers.
use technova_pos_api.Sales.Selling.{sell_lines}
use technova_pos_api.Inventory.Transfer.{has_duplicates}
use technova_pos_api.Sync.Again.{submit-answer_again, answer_again}
use technova_pos_api.Sync.Submit.{
  status_of, status, created, execute, process, processed, submit_new, submit,
}
use technova_pos_api.Sync.Outcome.{
  submit-outcome, is_failed, is_completed, made, sale_ids, rejected_count, applied_count,
}
use technova_pos_api.Directory.{organization_id, RecordStatus, User, Directory}
use technova_pos_api.Calendar.{Moment}
use technova_pos_api.Prelude.Result.{Result, err, ok}
use technova_pos_api.Prelude.{[], ◌∷◌, none, false, true, refl, ◌≡◌, ◌+◌, ℕ, ◌==◌}
use technova_pos_api.Sales.State as Till
use technova_pos_api.Sales.State.{SaleRequest, Shop}
use technova_pos_api.Sync.State.{OperationType, BatchStatus, Json, BatchInput, Batch, State}
use technova_pos_api.Sales.Checkout.{checkout, prepare_sale, create}
use technova_pos_api.Sales.Customers.{find_customer, check_customer, store_credit_payment}
use technova_pos_api.Sales.Checks.{missing_products, prepare_items, check_payment, check_credit}
use technova_pos_api.Sales.Pricing.{create_totals}
use technova_pos_api.Sales.Settling.{update_loyalty, open_agreement, spend_store_credit}

abbrev directory : Directory
directory = record {
  members = record { user = 4; organization = 1 } ∷ [];
  branches = record { id = 2; organization = 1; status = RecordStatus.active; users = 4 ∷ [] } ∷ [];
  products = [];
}

abbrev cashier : User
cashier = record { id = 4; super_admin = false }

abbrev shop : Shop
shop = record { directory = directory; customers = []; products = []; loyalty_rules = [] }

abbrev nothing_sold : Till.State
nothing_sold = record {
  stock = record { levels = []; units = []; movements = [] };
  sales = [];
  items = [];
  discounts = [];
  payments = [];
  store_credit = [];
  store_credit_entries = [];
  agreements = [];
  loyalty = [];
  loyalty_entries = [];
  warranties = [];
  warranty_events = [];
  receipts = [];
  audits = [];
}

abbrev empty_sale : SaleRequest
empty_sale = record {
  branch = 2;
  customer = none;
  items = [];
  payments = [];
  loyalty_points = 0;
  credit = none;
}

abbrev json : Json ℕ
json = record { same_text = λ a b. a == b; stored = λ a. a; decode = λ a. ok empty_sale }

abbrev start : State ℕ
start = record { batches = []; till = nothing_sold }

abbrev batch : BatchInput ℕ
batch = record {
  client_id = 31;
  device = 32;
  operations =
      record { client_id = 41; kind = OperationType.sale_create; timestamp = 1; payload = 7 }
      ∷ record { client_id = 42; kind = OperationType.other []; timestamp = 2; payload = 8 }
      ∷ [];
}

abbrev noon : Moment
noon = record { ms = 50; date = record { year = 2026; month = 0; day = 1; time = 0 } }

abbrev or_start : Result (Batch ℕ × State ℕ) → Batch ℕ × State ℕ
or_start (ok r) = r
or_start (err _) = (
  record {
    id = 0;
    user = 0;
    client_id = 0;
    device = 0;
    status = BatchStatus.received;
    completed_at = none;
    operations = [];
  },
  start,
)

abbrev sent : Batch ℕ × State ℕ
sent = or_start (submit json shop noon 11 (λ n. 20 + n) cashier batch start)

is_sent : submit json shop noon 11 (λ n. 20 + n) cashier batch start ≡ ok (sent.0, sent.1)
unfolding submit submit_new processed process execute created status has_duplicates status_of create
    prepare_sale checkout sell_lines organization_id
is_sent = refl

-- One operation made a sale, the other was rejected.
half_done : (sent.0.status ≡ BatchStatus.partially_failed) × (sale_ids sent.1.till ≡ 20 ∷ [])
unfolding submit submit_new processed process execute created status has_duplicates status_of create
    prepare_sale checkout sell_lines organization_id find_customer check_customer
    store_credit_payment missing_products prepare_items check_payment create_totals check_credit
    update_loyalty open_agreement spend_store_credit
half_done = (refl, refl)

submit-answer_again_example :
    submit json shop noon 12 (λ n. 30 + n) cashier batch sent.1 ≡ answer_again true sent.0 sent.1
submit-answer_again_example =
    submit-answer_again json shop noon 11 (λ n. 20 + n) cashier batch start refl is_sent shop noon
      12 (λ n. 30 + n)

submit-outcome_example :
    (applied_count sent.0.operations + rejected_count sent.0.operations ≡ 2)
    × (sale_ids sent.1.till ≡ made sent.0.operations [])
    × (is_completed sent.0.status ≡ true → applied_count sent.0.operations ≡ 2)
    × (is_failed sent.0.status ≡ true → sent.1.till ≡ nothing_sold)
submit-outcome_example =
    submit-outcome json shop noon 11 (λ n. 20 + n) cashier batch start refl is_sent
