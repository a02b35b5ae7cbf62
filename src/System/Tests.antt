-- ===== src/System/Tests.antt =====
-- An adjustment, and then the return of a serialized unit.
use technova_pos_api.Returns.Refund.{cash_refund, credit_offset}
use technova_pos_api.Returns.Prepare.{
  refund_of, returned_of, prepare_line, prepare_lines, find_sale,
}
use technova_pos_api.Returns.Goods.{units_back}
use technova_pos_api.Directory.{find_branch, RecordStatus, organization_id, User, Directory}
use technova_pos_api.Prelude.Int.{pos}
use technova_pos_api.Prelude.Result.{Result, err, ok}
use technova_pos_api.Prelude.{[], ◌∷◌, some, none, false, refl, ◌≡◌}
use technova_pos_api.Returns.State as Returning
use technova_pos_api.Returns.State.{ReturnRequest}
use technova_pos_api.Returns.Create.{create, ReturnResult}
use technova_pos_api.Inventory.State.{State as Warehouse}
use technova_pos_api.Inventory.Adjust.{Adjustment}
use technova_pos_api.System.Steps.{for_returning, for_inventory, after_inventory, State}
use technova_pos_api.Sales.State.{Shop, SaleStatus}
use technova_pos_api.Stock.{Stock}
use technova_pos_api.Inventory.Adjust.{adjust}

abbrev directory : Directory
directory = record {
  members = record { user = 4; organization = 1 } ∷ [];
  branches = record { id = 2; organization = 1; status = RecordStatus.active; users = 4 ∷ [] } ∷ [];
  products = record { id = 5; organization = 1; track_serials = false } ∷ [];
}

abbrev keeper : User
keeper = record { id = 4; super_admin = false }

abbrev shop : Shop
shop = record { directory = directory; customers = []; products = []; loyalty_rules = [] }

abbrev empty_stock : Stock
empty_stock = record { levels = []; units = []; movements = [] }

abbrev start : State
start = record {
  stock = empty_stock;
  inventory = record { stock = empty_stock; transfers = []; audits = [] };
  selling = record {
    stock = empty_stock;
    sales = [];
    items = [];
    discounts = [];
    payments = [];
    store_credit = [];
    store_credit_entries = [];
    agreements = [];
    loyalty = [];
    loyalty_entries = [];
    warranties = [];
    warranty_events = [];
    receipts = [];
    audits = [];
  };
  buying = record {
    stock = empty_stock;
    orders = [];
    receipts = [];
    receipt_items = [];
    shipments = [];
    notices = [];
    audits = [];
  };
  returning = record {
    stock = empty_stock;
    sales =
        record {
          id = 1;
          branch = 2;
          customer = none;
          status = SaleStatus.completed;
          paid_total = pos 0;
          balance_due = pos 0;
        }
        ∷ [];
    items =
        record {
          id = 11;
          sale = 1;
          product = 5;
          quantity = 1000;
          line_total = 0;
          unit = some 9;
          warranty = none;
        }
        ∷ [];
    returns = [];
    return_items = [];
    payments = [];
    store_credit = [];
    store_credit_entries = [];
    loyalty = [];
    loyalty_entries = [];
    agreements = [];
    warranties = [];
    warranty_events = [];
    audits = [];
  };
}

abbrev correction : Adjustment
correction = record { branch = 2; product = 5; delta = pos 3000; reason = [] }

abbrev or_warehouse : Result Warehouse → Warehouse
or_warehouse (ok t) = t
or_warehouse (err _) = start.inventory

abbrev corrected : Warehouse
corrected = or_warehouse (adjust directory keeper correction (for_inventory start))

abbrev then_corrected : State
then_corrected = after_inventory start corrected

abbrev request : ReturnRequest
request = record {
  sale = 1;
  reason = [];
  refund_method = none;
  resolution = none;
  items = record { sale_item = 11; quantity = 1000; condition = none; restock = none } ∷ [];
}

abbrev or_empty : Result (ReturnResult × Returning.State) → ReturnResult × Returning.State
or_empty (ok r) = r
or_empty (err _) = (
  record {
    return = 0;
    total = 0;
    credit_offset = pos 0;
    cash_refund = 0;
    status = SaleStatus.draft;
  },
  start.returning,
)

abbrev returned : ReturnResult × Returning.State
returned = or_empty (create directory 8 21 keeper request (for_returning then_corrected))

-- One unit came back and is not on the shelf.
one_piece : units_back directory keeper request (for_returning then_corrected) 2 5 ≡ 1000
unfolding organization_id find_sale prepare_lines prepare_line returned_of refund_of find_branch
one_piece = refl
