-- ===== src/Portal/Dispatch.antt =====
-- `SupplierPortalService.dispatch`: the supplier sends what was agreed.
use technova_pos_api.Inventory.State.{audit}
use technova_pos_api.Portal.Respond.{is_approved, supplier_order, membership, proposes_changes}
use technova_pos_api.Directory.{User}
use technova_pos_api.Purchasing.State.{ShipmentStatus}
use technova_pos_api.Portal.State.{State, SupplierResponse, ReviewStatus, ResponseStatus, Access}
use technova_pos_api.Prelude.Result.{lit, conflict, raise_if, Result, ◌>>◌, ◌>>=◌, ok}
use technova_pos_api.Prelude.{
  ◌∷◌, List, some, none, Option, ◌||◌, ◌&&◌, not, false, true, Bool, ℕ, find, ◌==◌,
}

abbrev pub is_accepted : ResponseStatus → Bool
is_accepted ResponseStatus.accepted = true
is_accepted _ = false

abbrev pub is_granted : ReviewStatus → Bool
is_granted ReviewStatus.approved = true
is_granted _ = false

-- `accepted`
unfoldable pub is_agreed : SupplierResponse → Bool
is_agreed r = is_accepted r.status || (proposes_changes r.status && is_granted r.review)

-- `supplierResponses[0]`, by the time of the response.
unfoldable pub last_response : ℕ → List SupplierResponse → Option SupplierResponse
last_response order = find (λ (r : SupplierResponse). r.order == order)

abbrev pub is_settled : Option SupplierResponse → Bool
is_settled none = false
is_settled (some r) = is_agreed r

-- `DispatchSupplierOrderDto`, as far as it is used.
pub record DispatchRequest : Type 0 where
  pub status : Option ShipmentStatus

abbrev pub shipment_status : DispatchRequest → ShipmentStatus
shipment_status dto = elim dto.status [ none ↦ ShipmentStatus.dispatched | some s ↦ s ]

-- The notifications of the order are marked as read, and the organization is told.
unfoldable pub dispatch : Access → User → ℕ → DispatchRequest → State → Result State
dispatch access actor id dto st = do
  (supplier, organization) ← membership access actor.id
  order ← supplier_order supplier.id id st
  raise_if (not (is_settled (last_response id st.responses)))
      (conflict (lit "Accept the order or obtain approval for proposed changes before dispatch."))
  raise_if (not (is_approved order.status))
      (conflict (lit "This purchase order cannot be dispatched."))
  ok (record st {
    shipments =
        record { order = id; status = shipment_status dto; delivered_at = none } ∷ st.shipments;
    audits = audit actor "SUPPLIER_ORDER_DISPATCHED" id st.audits;
  })
