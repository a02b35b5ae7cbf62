-- ===== src/Purchasing/Tests.antt =====
-- An order of two serialized lamps and three cables, of which the lamps and two cables come.
use technova_pos_api.Prelude.{
  ◌*◌, ℕ, ◌+◌, ◌≡◌, refl, true, false, none, some, List, [], ◌∷◌, map, All, sum_of, arith, ◌==◌,
  if◌then◌else◌,
}
use technova_pos_api.Prelude.Int.{pos, pos_part}
use technova_pos_api.Prelude.Text.{to_upper, to_upper_char, is_lower, trim, is_space, drop_spaces}
use technova_pos_api.Prelude.Result.{Result, ok, err}
use technova_pos_api.Directory.{Directory, User, RecordStatus, organization_id, find_branch}
use technova_pos_api.Stock.{put_level}
use technova_pos_api.Stock.Ledger.{on_hand, Reconciles}
use technova_pos_api.Inventory.Transfer.{has_duplicates, product_count}
use technova_pos_api.Inventory.Dispatch.{tracks_serials}
use technova_pos_api.Purchasing.State.{
  PurchaseOrderStatus, State, PurchaseOrder, Supplier, find_order,
}
use technova_pos_api.Purchasing.Order.{OrderRequest, create, approve}
use technova_pos_api.Purchasing.Prepare.{
  Entropy, PreparedRow, ReceiptRequest, prepare_rows, prepare_row, line_serials, repeats,
}
use technova_pos_api.Purchasing.Receive.{receive, store_rows, create_units, finish}
use technova_pos_api.Purchasing.Totals.{create-total, IsAmount}
use technova_pos_api.Purchasing.Received.{IsWithin, IsKeyed}
use technova_pos_api.Purchasing.Receipt.{receive-order, order_at, status_of}
use technova_pos_api.Purchasing.Goods.{receive-goods, delivered}

abbrev directory : Directory
directory = record {
  members = record { user = 4; organization = 1 } ∷ [];
  branches = record { id = 9; organization = 1; status = RecordStatus.active; users = [] } ∷ [];
  products =
      record { id = 5; organization = 1; track_serials = true }
      ∷ record { id = 6; organization = 1; track_serials = false }
      ∷ [];
}

abbrev keeper : User
keeper = record { id = 4; super_admin = false }

abbrev suppliers : List Supplier
suppliers = record { id = 2; organization = 1 } ∷ []

abbrev request : OrderRequest
request = record {
  branch = 9;
  supplier = 2;
  items =
      record {
        new_id = 11;
        product = 5;
        quantity = 2000;
        unit_cost = 70000;
        discount = 500;
        tax = 1000;
      }
      ∷ record { new_id = 12; product = 6; quantity = 3000; unit_cost = 900; discount = 0; tax = 0 }
      ∷ [];
}

abbrev start : State
start = record {
  stock = record { levels = []; units = []; movements = [] };
  orders = [];
  receipts = [];
  receipt_items = [];
  shipments = [];
  notices = [];
  audits = [];
}

abbrev or_start : Result State → State
or_start (ok st) = st
or_start (err _) = start

abbrev ordered : State
ordered = or_start (create directory suppliers 7 keeper request start)

is_ordered : create directory suppliers 7 keeper request start ≡ ok ordered
unfolding create organization_id find_branch has_duplicates product_count
is_ordered = refl

create-total_example :
    (o : PurchaseOrder) × (ordered.orders ≡ o ∷ [])
    × (map (λ i. i.product) o.items ≡ 5 ∷ 6 ∷ [])
    × All IsAmount o.items
    × (o.total ≡ pos (sum_of (λ i. pos_part i.line_total) o.items))
create-total_example = create-total directory suppliers 7 keeper request start is_ordered

abbrev approved : State
approved = or_start (approve directory 50 keeper 7 ordered)

abbrev delivery : ReceiptRequest
delivery = record {
  number = b'g' ∷ b'1' ∷ [];
  invoice = none;
  invoice_number = none;
  items =
      record {
        item = 11;
        quantity = 2000;
        serials = (b'a' ∷ []) ∷ (b'b' ∷ []) ∷ [];
        generate_serials = false;
      }
      ∷ record { item = 12; quantity = 2000; serials = []; generate_serials = false }
      ∷ [];
}

abbrev entropy : Entropy
entropy = record { unit_id = λ item place. item * 100 + place; serial = λ item place. place ∷ [] }

abbrev stocked : State
stocked = or_start (receive entropy directory 60 30 keeper 7 delivery approved)

abbrev order : PurchaseOrder
order = elim (order_at 7 approved.orders) [
  | some o ↦ o
  | none ↦ record {
    id = 0;
    branch = 0;
    supplier = 0;
    status = PurchaseOrderStatus.draft;
    approved_by = none;
    approved_at = none;
    subtotal = 0;
    discount_total = 0;
    tax_total = 0;
    total = pos 0;
    items = [];
    invoices = [];
  }
]

is_stocked : receive entropy directory 60 30 keeper 7 delivery approved ≡ ok stocked
unfolding create organization_id find_branch has_duplicates product_count approve find_order receive
    prepare_rows prepare_row line_serials tracks_serials repeats store_rows create_units finish
    put_level trim to_upper to_upper_char is_lower is_space drop_spaces
is_stocked = refl

is_found : find_order directory 4 7 approved.orders ≡ ok order
unfolding create organization_id find_branch has_duplicates product_count approve find_order
is_found = refl

is_at : order_at 7 approved.orders ≡ some order
unfolding create organization_id find_branch has_duplicates product_count approve find_order
is_at = refl

order-IsKeyed : IsKeyed order.items
unfolding create organization_id find_branch has_duplicates product_count approve find_order
order-IsKeyed = (refl, (refl, tt))

order-IsWithin : All IsWithin order.items
unfolding create organization_id find_branch has_duplicates product_count approve find_order
order-IsWithin = (omega arith, (omega arith, tt))

receive-order_example :
    (o : PurchaseOrder) × (order_at 7 stocked.orders ≡ some o)
    × All IsWithin o.items
    × (o.status ≡ status_of o.items)
receive-order_example =
    receive-order entropy directory 60 30 keeper 7 delivery order approved is_stocked is_found is_at
      order-IsKeyed order-IsWithin

nothing-Reconciles : Reconciles (λ b p. 0) approved.stock
unfolding create organization_id find_branch has_duplicates product_count approve find_order
nothing-Reconciles = λ b p. refl

receive-goods_example :
    (o : PurchaseOrder) × (rows : List PreparedRow) × (find_order directory 4 7 approved.orders
      ≡ ok o)
    × (prepare_rows entropy directory o.items [] delivery.items ≡ ok rows)
    × ((b p : ℕ)
        → on_hand b p stocked.stock.levels
          ≡ on_hand b p approved.stock.levels + (if o.branch == b then delivered p rows else 0))
    × Reconciles (λ b p. 0) stocked.stock
receive-goods_example =
    receive-goods (λ b p. 0) entropy directory 60 30 keeper 7 delivery approved is_stocked
      nothing-Reconciles
