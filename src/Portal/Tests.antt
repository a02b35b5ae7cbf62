-- ===== src/Portal/Tests.antt =====
-- A supplier proposes a smaller quantity, which is approved, and sends the goods.
use technova_pos_api.Purchasing.State.{PurchaseOrder, PurchaseOrderStatus}
use technova_pos_api.Portal.Totalled.{review-IsTotalled, IsTotalled}
use technova_pos_api.Portal.State.{ResponseStatus, State, ResponseRequest, Access}
use technova_pos_api.Portal.Review.{change_items, changed_order, find_response, review, Decision}
use technova_pos_api.Portal.Respond.{supplier_order, membership, respond}
use technova_pos_api.Portal.Dispatch.{is_agreed, last_response, dispatch, DispatchRequest}
use technova_pos_api.Portal.Agreed.{Step, Reach, Reach-IsAgreed, IsAgreed}
use technova_pos_api.Inventory.Transfer.{has_duplicates}
use technova_pos_api.Directory.{find_branch, organization_id, RecordStatus, User, Directory}
use technova_pos_api.Prelude.Int.{pos}
use technova_pos_api.Prelude.Result.{Result, err, ok}
use technova_pos_api.Prelude.{[], map, ◌∷◌, some, none, false, true, refl, ◌≡◌, All}

abbrev directory : Directory
directory = record {
  members = record { user = 4; organization = 1 } ∷ [];
  branches = record { id = 2; organization = 1; status = RecordStatus.active; users = 4 ∷ [] } ∷ [];
  products = [];
}

abbrev buyer : User
buyer = record { id = 4; super_admin = false }

abbrev seller : User
seller = record { id = 9; super_admin = false }

abbrev access : Access
access = record {
  users = record { user = 9; supplier = 6 } ∷ [];
  suppliers =
      record {
        id = 6;
        organization = 1;
        portal_enabled = true;
        status = RecordStatus.active;
        changes = none;
      }
      ∷ [];
  organizations = record { id = 1; portal_enabled = true; changes_enabled = true } ∷ [];
}

abbrev start : State
start = record {
  orders =
      record {
        id = 5;
        branch = 2;
        supplier = 6;
        status = PurchaseOrderStatus.approved;
        approved_by = some 4;
        approved_at = some 1;
        subtotal = 300000;
        discount_total = 0;
        tax_total = 0;
        total = pos 300000;
        items =
            record {
              id = 51;
              product = 7;
              quantity = 3000;
              received_quantity = 0;
              unit_cost = 100;
              discount = 0;
              tax = 0;
              line_total = pos 300000;
            }
            ∷ [];
        invoices = [];
      }
      ∷ [];
  responses = [];
  shipments = [];
  audits = [];
}

abbrev proposal : ResponseRequest
proposal = record {
  status = ResponseStatus.changes_proposed;
  lines = some (record { item = 51; quantity = some 2000; unit_cost = none } ∷ []);
}

abbrev or_start : Result State → State
or_start (ok st) = st
or_start (err _) = start

abbrev answered : State
answered = or_start (respond access 71 seller 5 proposal start)

is_answered : respond access 71 seller 5 proposal start ≡ ok answered
unfolding respond membership supplier_order has_duplicates
is_answered = refl

abbrev approval : Decision
approval = record { approved = true }

abbrev granted : State
granted = or_start (review directory 3 buyer 71 approval answered)

granted_now : review directory 3 buyer 71 approval answered ≡ ok granted
unfolding respond membership supplier_order has_duplicates review find_response organization_id
    find_branch
granted_now = refl

-- Two pieces for 2 are left.
new_total : map (λ (o : PurchaseOrder). o.total) granted.orders ≡ pos 200000 ∷ []
unfolding respond membership supplier_order has_duplicates review find_response organization_id
    find_branch changed_order change_items
new_total = refl

abbrev at_once : DispatchRequest
at_once = record { status = none }

abbrev sent : State
sent = or_start (dispatch access seller 5 at_once granted)

is_sent : dispatch access seller 5 at_once granted ≡ ok sent
unfolding respond membership supplier_order has_duplicates review find_response organization_id
    find_branch changed_order change_items dispatch last_response is_agreed
is_sent = refl

start-IsAgreed : IsAgreed start
unfolding has_duplicates
start-IsAgreed = record { agreed = tt; unique = refl }

Reach-IsAgreed_example : IsAgreed sent
Reach-IsAgreed_example =
    Reach-IsAgreed access directory start
      (Reach.next
        (Reach.next (Reach.next Reach.here (Step.responding 71 seller 5 proposal refl is_answered))
          (Step.reviewing 3 buyer 71 approval granted_now))
        (Step.dispatching seller 5 at_once is_sent))
      start-IsAgreed

answered-IsTotalled : All IsTotalled answered.orders
unfolding respond membership supplier_order has_duplicates
answered-IsTotalled =
    (record { costs = refl; discounts = refl; taxes = refl; whole = refl; lines = (refl, tt) }, tt)

review-IsTotalled_example : All IsTotalled granted.orders
review-IsTotalled_example =
    review-IsTotalled directory 3 buyer 71 approval answered granted_now answered-IsTotalled
