-- ===== src/Inventory/Tests.antt =====
-- Two serialized lamps go from one branch to another, and a stock correction.
use technova_pos_api.Inventory.Runs.{Reach, Step}
use technova_pos_api.Inventory.Effects.{
  adjust-on_hand, dispatch-on_hand, receive-on_hand, sent_quantity,
}
use technova_pos_api.Inventory.Order.{dispatch-then, receive-then}
use technova_pos_api.Inventory.State.{StockTransfer, TransferStatus, is_submitted, is_in_transit}
use technova_pos_api.Inventory.Receive.{
  receive, receive_items, receive_item, take_in, shelve_units, units_sent,
}
use technova_pos_api.Stock.{put_level}
use technova_pos_api.Prelude.{◌+◌, ◌==◌, if◌then◌else◌}
use technova_pos_api.Prelude.Result.{conflict, lit}
use technova_pos_api.Prelude.{ℕ, true, false, none, List, [], ◌∷◌, ◌≡◌, refl, arith}
use technova_pos_api.Prelude.Int.{negsuc}
use technova_pos_api.Prelude.Text.{to_upper, to_upper_char, is_lower, trim, is_space, drop_spaces}
use technova_pos_api.Prelude.Result.{Result, ok, err}
use technova_pos_api.Directory.{
  Directory, User, RecordStatus, organization_id, find_product, find_branch,
}
use technova_pos_api.Stock.{UnitStatus, take_level}
use technova_pos_api.Stock.Ledger.{Reconciles, on_hand}
use technova_pos_api.Inventory.State.{State, find_transfer}
use technova_pos_api.Inventory.Adjust.{Adjustment, adjust, adjust_stock}
use technova_pos_api.Inventory.Transfer.{
  TransferRequest, create_transfer, has_duplicates, branch_count, product_count, exceeds_available,
}
use technova_pos_api.Inventory.Dispatch.{
  DispatchSerials, dispatch, dispatch_items, dispatch_item, find_serials, serials_of,
  tracks_serials, units_on_shelf, send_units, reserve_units,
}
use technova_pos_api.Inventory.Receive.{receive}
use technova_pos_api.Inventory.Balance.{adjust-Reconciles}

abbrev directory : Directory
directory = record {
  members = record { user = 4; organization = 1 } ∷ [];
  branches =
      record { id = 9; organization = 1; status = RecordStatus.active; users = [] }
      ∷ record { id = 8; organization = 1; status = RecordStatus.active; users = [] }
      ∷ [];
  products =
      record { id = 5; organization = 1; track_serials = true }
      ∷ record { id = 6; organization = 1; track_serials = false }
      ∷ [];
}

abbrev keeper : User
keeper = record { id = 4; super_admin = false }

abbrev start : State
start = record {
  stock = record {
    levels =
        record { branch = 9; product = 5; on_hand = 3000; reserved = 0 }
        ∷ record { branch = 9; product = 6; on_hand = 500; reserved = 0 }
        ∷ [];
    units =
        record { id = 1; branch = 9; product = 5; serial = b'A' ∷ []; status = UnitStatus.in_stock }
        ∷ record {
          id = 2;
          branch = 9;
          product = 5;
          serial = b'B' ∷ [];
          status = UnitStatus.in_stock;
        }
        ∷ record {
          id = 3;
          branch = 9;
          product = 5;
          serial = b'C' ∷ [];
          status = UnitStatus.in_stock;
        }
        ∷ [];
    movements = [];
  };
  transfers = [];
  audits = [];
}

abbrev opening : ℕ → ℕ → ℕ
opening b p = on_hand b p start.stock.levels

abbrev correction : Adjustment
correction = record { branch = 9; product = 6; delta = negsuc 199; reason = [] }

abbrev or_start : Result State → State
or_start (ok st) = st
or_start (err _) = start

abbrev corrected : State
corrected = or_start (adjust directory keeper correction start)

adjusted : adjust directory keeper correction start ≡ ok corrected
unfolding adjust adjust_stock organization_id find_product find_branch take_level
adjusted = refl

adjust-Reconciles_example : Reconciles opening corrected.stock
adjust-Reconciles_example =
    adjust-Reconciles opening directory keeper correction start adjusted (λ b p. ground arith)

abbrev request : TransferRequest
request = record {
  source = 9;
  destination = 8;
  notes = none;
  items = record { product = 5; quantity = 2000 } ∷ [];
}

-- Written the way people type them.
abbrev serials : List DispatchSerials
serials = record { product = 5; serials = (b'a' ∷ []) ∷ (32 ∷ b'C' ∷ []) ∷ [] } ∷ []

abbrev requested : State
requested = or_start (create_transfer directory 7 keeper request start)

abbrev sent : State
sent = or_start (dispatch directory 100 keeper 7 serials requested)

abbrev arrived : State
arrived = or_start (receive directory 200 keeper 7 sent)

is_requested : create_transfer directory 7 keeper request start ≡ ok requested
unfolding create_transfer organization_id branch_count has_duplicates product_count
    exceeds_available
is_requested = refl

is_sent : dispatch directory 100 keeper 7 serials requested ≡ ok sent
unfolding create_transfer organization_id branch_count has_duplicates product_count
    exceeds_available dispatch find_transfer find_branch dispatch_items dispatch_item find_serials
    serials_of tracks_serials units_on_shelf send_units reserve_units take_level trim to_upper
    to_upper_char is_lower is_space drop_spaces
is_sent = refl

is_arrived : receive directory 200 keeper 7 sent ≡ ok arrived
unfolding create_transfer organization_id branch_count has_duplicates product_count
    exceeds_available dispatch find_transfer find_branch dispatch_items dispatch_item find_serials
    serials_of tracks_serials units_on_shelf send_units reserve_units take_level trim to_upper
    to_upper_char is_lower is_space drop_spaces receive receive_items receive_item put_level take_in
    units_sent shelve_units
is_arrived = refl

abbrev journey : Reach directory start arrived
journey =
    Reach.next
      (Reach.next
        (Reach.next Reach.here (
          Step.creating 7 keeper request
            (record { unused = refl; unlogged = λ q. unfold units_sent in refl }) is_requested))
        (Step.dispatching 100 keeper 7 serials is_sent))
      (Step.receiving 200 keeper 7 is_arrived)

adjust-on_hand_example :
    on_hand 9 6 corrected.stock.levels + 200 ≡ on_hand 9 6 start.stock.levels + 0
adjust-on_hand_example = adjust-on_hand directory keeper correction start 9 6 adjusted

dispatch-on_hand_example :
    (t : StockTransfer) × (find_transfer directory 4 7 requested.transfers ≡ ok t)
    × (is_submitted t.status ≡ true)
    × ((b p : ℕ)
        → on_hand b p sent.stock.levels + (if t.source == b then sent_quantity p t.items else 0)
          ≡ on_hand b p requested.stock.levels)
dispatch-on_hand_example = dispatch-on_hand directory 100 keeper 7 serials requested is_sent

receive-on_hand_example :
    (t : StockTransfer) × (find_transfer directory 4 7 sent.transfers ≡ ok t)
    × (is_in_transit t.status ≡ true)
    × ((b p : ℕ)
        → on_hand b p arrived.stock.levels
          ≡ on_hand b p sent.stock.levels
            + (if t.destination == b then sent_quantity p t.items else 0))
receive-on_hand_example = receive-on_hand directory 200 keeper 7 sent is_arrived

dispatch-then_example :
    (dispatch directory 150 keeper 7 [] sent
      ≡ err (conflict (lit "Only submitted transfers can be dispatched.")))
    × (end : State) × (receive directory 150 keeper 7 sent ≡ ok end)
dispatch-then_example = dispatch-then directory 100 150 keeper 7 serials [] requested is_sent

receive-then_example :
    (dispatch directory 300 keeper 7 serials arrived
      ≡ err (conflict (lit "Only submitted transfers can be dispatched.")))
    × (receive directory 300 keeper 7 arrived
        ≡ err (conflict (lit "Only in-transit transfers can be received.")))
receive-then_example = receive-then directory 200 300 keeper 7 serials sent is_arrived

abbrev shipped : StockTransfer
shipped = record {
  id = 7;
  source = 9;
  destination = 8;
  status = TransferStatus.submitted;
  items = record { product = 5; quantity = 2000; received_quantity = 0 } ∷ [];
  notes = none;
  dispatched_at = none;
  received_at = none;
}

shelf_cleared :
    dispatch_items directory keeper shipped serials shipped.items start.stock ≡ ok sent.stock
unfolding create_transfer organization_id branch_count has_duplicates product_count
    exceeds_available dispatch find_transfer find_branch dispatch_items dispatch_item find_serials
    serials_of tracks_serials units_on_shelf send_units reserve_units take_level trim to_upper
    to_upper_char is_lower is_space drop_spaces
shelf_cleared = refl
