-- ===== src/Portal/Agreed.antt =====
-- What is agreed on before an order is dispatched.
use mathlib.Core.Path.{subst}
use technova_pos_api.Portal.Review.{
  reviewed, is_pending, find_response, review, Decision, is_of_order,
}
use technova_pos_api.Purchasing.State.{Shipment, PurchaseOrder}
use technova_pos_api.Portal.State.{ResponseLine, ResponseRequest, SupplierResponse, State, Access}
use technova_pos_api.Portal.Respond.{
  new_response, line_items, has_item, lines_of, changes_enabled, proposes_changes, is_approved,
  supplier_order, membership, respond,
}
use technova_pos_api.Portal.Dispatch.{
  DispatchRequest, is_settled, is_agreed, last_response, dispatch,
}
use technova_pos_api.Inventory.Transfer.{has_duplicates}
use technova_pos_api.Directory.{organization_id, User, Directory}
use technova_pos_api.Prelude.Result.{or_raise-then, ok-injective, raise_if-then, >>=-eq-ok, ok}
use technova_pos_api.Prelude.{
  ◌||◌, [], arith, map, ◌∷◌, List, some, ◌&&◌, not, false, true, Bool, inr, inl, refl, ◌≡◌, ℕ,
  contains, All-map, All, update_many, any, find, length, Bool-cases, ◌==◌,
}

abbrev pub response_ids : List SupplierResponse → List ℕ
response_ids = map (λ (r : SupplierResponse). r.id)

-- One successful request to the portal, by any user at any time. The database gives a new response
-- an id that is not in use.
pub data Step (access : Access) (dir : Directory) (s t : State) : Type 0 where
  responding :
      (new_id : ℕ) (actor : User) (id : ℕ) (dto : ResponseRequest)
      → contains new_id (response_ids s.responses) ≡ false
      → respond access new_id actor id dto s ≡ ok t
      → Step access dir s t
  reviewing :
      (now : ℕ) (actor : User) (id : ℕ) (dto : Decision)
      → review dir now actor id dto s ≡ ok t
      → Step access dir s t
  dispatching :
      (actor : User) (id : ℕ) (dto : DispatchRequest)
      → dispatch access actor id dto s ≡ ok t
      → Step access dir s t

pub data Reach (access : Access) (dir : Directory) (s : State) : State → Type 0 where
  here : Reach access dir s s
  next : {t u : State} → Reach access dir s t → Step access dir t u → Reach access dir s u

-- Some response for the order is accepted, or proposes changes that were approved.
abbrev pub settles : ℕ → SupplierResponse → Bool
settles order r = r.order == order && is_agreed r

abbrev pub is_settled_by : List SupplierResponse → ℕ → Bool
is_settled_by rs order = any (settles order) rs

pub record IsAgreed (st : State) : Type 0 where
  pub agreed : All (λ (s : Shipment). is_settled_by st.responses s.order ≡ true) st.shipments
  pub unique : has_duplicates (response_ids st.responses) ≡ false

cons-settled :
    (r : SupplierResponse) (rs : List SupplierResponse) (order : ℕ)
    → is_settled_by rs order ≡ true
    → is_settled_by (r ∷ rs) order ≡ true
cons-settled r rs order h = ground (arith, h)

found-settled :
    (order : ℕ) (rs : List SupplierResponse)
    → is_settled (last_response order rs) ≡ true
    → is_settled_by rs order ≡ true
unfolding last_response
found-settled order [] h = cc
found-settled order (r ∷ rs) h = elim (Bool-cases (r.order == order)) [
  | inl own ↦ ground (arith, own, h)
  | inr other ↦ ground (arith, other, found-settled order rs)
]

respond-IsAgreed :
    (access : Access) (new_id : ℕ) (actor : User) (id : ℕ) (dto : ResponseRequest) (s : State)
    {t : State}
    → contains new_id (response_ids s.responses) ≡ false
    → respond access new_id actor id dto s ≡ ok t
    → IsAgreed s
    → IsAgreed t
unfolding respond has_duplicates
respond-IsAgreed access new_id actor id dto s {t} fresh e h =
    let ((supplier, organization), in_portal, e1) = >>=-eq-ok (membership access actor.id) _ e in
    let (order, found, e2) = >>=-eq-ok (supplier_order supplier.id id s) _ e1 in
    let (u1, e3) = raise_if-then (not (is_approved order.status)) _ _ e2 in
    let (u2, e4) =
      raise_if-then (proposes_changes dto.status && not (changes_enabled supplier organization)) _ _
        e3 in
    let (u3, e5) =
      raise_if-then (proposes_changes dto.status && length (lines_of dto) == 0) _ _ e4 in
    let (u4, e6) =
      raise_if-then (any (λ (l : ResponseLine). not (has_item order l.item)) (lines_of dto)) _ _
        e5 in
    let (u5, e7) = raise_if-then (has_duplicates (line_items (lines_of dto))) _ _ e6 in
    let r = new_response new_id id actor dto in
    subst IsAgreed (ok-injective e7) (record {
      agreed =
          All-map (λ sh settled. cons-settled r s.responses sh.order settled) s.shipments h.agreed;
      unique = ground (arith, fresh, h.unique);
    })

not-false : (b : Bool) → not b ≡ false → b ≡ true
not-false true h = refl
not-false false h = ground (arith, h)

dispatch-IsAgreed :
    (access : Access) (actor : User) (id : ℕ) (dto : DispatchRequest) (s : State) {t : State}
    → dispatch access actor id dto s ≡ ok t
    → IsAgreed s
    → IsAgreed t
unfolding dispatch
dispatch-IsAgreed access actor id dto s {t} e h =
    let ((supplier, organization), in_portal, e1) = >>=-eq-ok (membership access actor.id) _ e in
    let (order, found, e2) = >>=-eq-ok (supplier_order supplier.id id s) _ e1 in
    let (u1, e3) = raise_if-then (not (is_settled (last_response id s.responses))) _ _ e2 in
    let (u2, e4) = raise_if-then (not (is_approved order.status)) _ _ e3 in
    let settled : is_settled (last_response id s.responses) ≡ true = not-false _ u1 in
    subst IsAgreed (ok-injective e4)
      (record { agreed = (found-settled id s.responses settled, h.agreed); unique = h.unique })

-- The review of a response that waits for one.
is_of_order-id :
    (dir : Directory) (org id : ℕ) (r : SupplierResponse) (orders : List PurchaseOrder)
    → any (is_of_order dir org id r) orders ≡ true
    → (r.id == id) ≡ true
is_of_order-id dir org id r [] h = cc
is_of_order-id dir org id r (o ∷ os) h = elim (Bool-cases (r.id == id)) [
  | inl own ↦ own
  | inr other ↦ ground (arith, other, is_of_order-id dir org id r os)
]

update_absent :
    (id : ℕ) (f : SupplierResponse → SupplierResponse) (rs : List SupplierResponse)
    → contains id (response_ids rs) ≡ false
    → update_many (λ (r : SupplierResponse). r.id == id) f rs ≡ rs
update_absent id f [] h = refl
update_absent id f (r ∷ rs) h = ground (arith, update_absent id f rs)

find-listed :
    (id : ℕ) (test : SupplierResponse → Bool) (rs : List SupplierResponse) {p : SupplierResponse}
    → ((r : SupplierResponse) → test r ≡ true → (r.id == id) ≡ true)
    → find test rs ≡ some p
    → contains id (response_ids rs) ≡ true
find-listed id test [] names found = cc
find-listed id test (r ∷ rs) {p} names found =
    ground (arith, names r, find-listed id test rs {p = p} names)

review-settled :
    (id : ℕ) (test : SupplierResponse → Bool) (f : SupplierResponse → SupplierResponse)
    (rs : List SupplierResponse) (order : ℕ) {p : SupplierResponse}
    → ((r : SupplierResponse) → test r ≡ true → (r.id == id) ≡ true)
    → find test rs ≡ some p
    → is_agreed p ≡ false
    → has_duplicates (response_ids rs) ≡ false
    → is_settled_by rs order ≡ true
    → is_settled_by (update_many (λ (r : SupplierResponse). r.id == id) f rs) order ≡ true
unfolding has_duplicates
review-settled id test f [] order names found open_response unique h = cc
review-settled id test f (r ∷ rs) order {p} names found open_response unique h = ground (
  arith,
  names r,
  update_absent id f rs,
  find-listed id test rs {p = p} names,
  review-settled id test f rs order {p = p} names,
)

-- A response that waits for its review is not agreed on.
pending-open :
    (r : SupplierResponse)
    → (not (proposes_changes r.status) || not (is_pending r.review)) ≡ false
    → is_agreed r ≡ false
unfolding is_agreed
pending-open r h = ground (arith, h)

ids-reviewed :
    (id now : ℕ) (actor : User) (dto : Decision) (rs : List SupplierResponse)
    → response_ids (update_many (λ (r : SupplierResponse). r.id == id) (reviewed now actor dto) rs)
      ≡ response_ids rs
ids-reviewed id now actor dto [] = refl
ids-reviewed id now actor dto (r ∷ rs) = ground (arith, ids-reviewed id now actor dto rs)

review-IsAgreed :
    (dir : Directory) (now : ℕ) (actor : User) (id : ℕ) (dto : Decision) (s : State) {t : State}
    → review dir now actor id dto s ≡ ok t
    → IsAgreed s
    → IsAgreed t
unfolding review find_response
review-IsAgreed dir now actor id dto s {t} e h =
    let (org, known, e1) = >>=-eq-ok (organization_id dir actor.id) _ e in
    let test = λ (r : SupplierResponse). any (is_of_order dir org id r) s.orders in
    let (p, found, e2) = or_raise-then (find test s.responses) _ _ e1 in
    let (waits, e3) =
      raise_if-then (not (proposes_changes p.status) || not (is_pending p.review)) _ _ e2 in
    subst IsAgreed (ok-injective e3) (record {
      agreed =
          All-map
            (λ sh settled.
              review-settled id test (reviewed now actor dto) s.responses sh.order
                (λ r named. is_of_order-id dir org id r s.orders named) found (pending-open p waits)
                h.unique settled)
            s.shipments h.agreed;
      unique = rw (ids-reviewed id now actor dto s.responses) h.unique;
    })

-- Nothing is sent without agreement: whatever suppliers answer and the staff decide, in any order,
-- each shipment belongs to an order for which the supplier accepted, or for which its proposed
-- changes were approved; and what was once agreed on is not taken back by a later review. It holds
-- from any state in which it does, one without shipments for instance; ids are distinct.
pub Reach-IsAgreed :
    (access : Access) (dir : Directory) (s : State) {t : State}
    → Reach access dir s t
    → IsAgreed s
    → IsAgreed t
Reach-IsAgreed access dir s here h = h
Reach-IsAgreed access dir s (next {t} {u} run (responding new_id actor id dto fresh e)) h =
    respond-IsAgreed access new_id actor id dto t fresh e (Reach-IsAgreed access dir s run h)
Reach-IsAgreed access dir s (next {t} {u} run (reviewing now actor id dto e)) h =
    review-IsAgreed dir now actor id dto t e (Reach-IsAgreed access dir s run h)
Reach-IsAgreed access dir s (next {t} {u} run (dispatching actor id dto e)) h =
    dispatch-IsAgreed access actor id dto t e (Reach-IsAgreed access dir s run h)
