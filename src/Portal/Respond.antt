-- ===== src/Portal/Respond.antt =====
-- `SupplierPortalService.respond`, with the access to the portal.
use technova_pos_api.Inventory.State.{audit}
use technova_pos_api.Inventory.Transfer.{has_duplicates}
use technova_pos_api.Purchasing.State.{OrderItem, PurchaseOrderStatus, PurchaseOrder}
use technova_pos_api.Portal.State.{
  SupplierUser, ReviewStatus, SupplierResponse, PortalOrganization, State, ResponseStatus,
  ResponseRequest, ResponseLine, PortalSupplier, Access,
}
use technova_pos_api.Directory.{is_active, User}
use technova_pos_api.Prelude.Result.{
  bad_request, not_found, lit, conflict, raise_if, or_raise, forbidden, Result, ◌>>◌, ◌>>=◌, ok,
}
use technova_pos_api.Prelude.{
  if◌then◌else◌, [], map, ◌∷◌, List, some, none, ◌||◌, ◌&&◌, not, false, true, Bool, ℕ, any, find,
  length, ◌==◌,
}

-- `membership`: the supplier of the user, and its organization.
unfoldable pub membership : Access → ℕ → Result (PortalSupplier × PortalOrganization)
membership access user = do
  let refused = forbidden (lit "Supplier portal access is not enabled.")
  u ← or_raise (find (λ (u : SupplierUser). u.user == user) access.users) refused
  s ← or_raise (find (λ (s : PortalSupplier). s.id == u.supplier) access.suppliers) refused
  raise_if (not s.portal_enabled || not (is_active s.status)) refused
  o ←
      or_raise (find (λ (o : PortalOrganization). o.id == s.organization) access.organizations)
        refused
  raise_if (not o.portal_enabled)
      (forbidden (lit "The supplier portal is disabled for this organization."))
  ok (s, o)

-- `orderChangesEnabled`
abbrev pub changes_enabled : PortalSupplier → PortalOrganization → Bool
changes_enabled s o = elim s.changes [ none ↦ o.changes_enabled | some b ↦ b ]

abbrev pub proposes_changes : ResponseStatus → Bool
proposes_changes ResponseStatus.changes_proposed = true
proposes_changes _ = false

abbrev pub is_approved : PurchaseOrderStatus → Bool
is_approved PurchaseOrderStatus.approved = true
is_approved _ = false

-- `purchaseOrder.findFirst` of the supplier.
unfoldable pub supplier_order : ℕ → ℕ → State → Result PurchaseOrder
supplier_order supplier id st =
    or_raise (find (λ (o : PurchaseOrder). o.id == id && o.supplier == supplier) st.orders)
      (not_found (lit "Purchase order not found."))

-- `dto.lines ?? []`
abbrev pub lines_of : ResponseRequest → List ResponseLine
lines_of dto = elim dto.lines [ none ↦ [] | some ls ↦ ls ]

abbrev pub line_items : List ResponseLine → List ℕ
line_items = map (λ (l : ResponseLine). l.item)

abbrev pub has_item : PurchaseOrder → ℕ → Bool
has_item o k = any (λ (i : OrderItem). i.id == k) o.items

abbrev pub new_response : ℕ → ℕ → User → ResponseRequest → SupplierResponse
new_response new_id order actor dto = record {
  id = new_id;
  order = order;
  responded_by = actor.id;
  status = dto.status;
  review = if proposes_changes dto.status then ReviewStatus.pending else ReviewStatus.not_required;
  lines = lines_of dto;
  reviewed_by = none;
  reviewed_at = none;
}

-- `new_id` is the id that the database gives the response. The organization is told of it.
unfoldable pub respond : Access → ℕ → User → ℕ → ResponseRequest → State → Result State
respond access new_id actor id dto st = do
  (supplier, organization) ← membership access actor.id
  order ← supplier_order supplier.id id st
  raise_if (not (is_approved order.status))
      (conflict (lit "Only approved purchase orders can be answered."))
  raise_if (proposes_changes dto.status && not (changes_enabled supplier organization))
      (forbidden (lit "Order change proposals are disabled."))
  raise_if (proposes_changes dto.status && length (lines_of dto) == 0)
      (bad_request (lit "Add at least one proposed line change."))
  raise_if (any (λ (l : ResponseLine). not (has_item order l.item)) (lines_of dto))
      (bad_request (lit "A proposed line does not belong to this order."))
  raise_if (has_duplicates (line_items (lines_of dto)))
      (bad_request (lit "A proposed line is duplicated."))
  ok (record st {
    responses = new_response new_id id actor dto ∷ st.responses;
    audits = audit actor "SUPPLIER_ORDER_RESPONSE_SUBMITTED" id st.audits;
  })
