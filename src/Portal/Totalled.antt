-- ===== src/Portal/Totalled.antt =====
-- The totals of a purchase order whose lines a supplier's proposal changes.
use mathlib.Core.Path.{subst}
use technova_pos_api.Portal.Respond.{proposes_changes}
use technova_pos_api.Prelude.Int.{sub_ℕ}
use technova_pos_api.Portal.State.{State, ResponseLine}
use technova_pos_api.Directory.{organization_id, User, Directory}
use technova_pos_api.Purchasing.State.{PurchaseOrder, OrderItem}
use technova_pos_api.Portal.Review.{
  is_pending, find_response, item_total, taxes_of, Decision, with_total, discounts_of, change_items,
  costs_of, review, changed_order,
}
use technova_pos_api.Prelude.Result.{ok-injective, raise_if-then, >>=-eq-ok, ok}
use technova_pos_api.Prelude.{
  if◌then◌else◌, [], arith, map, ◌∷◌, List, ◌||◌, not, false, true, Bool, ap, sym, refl, ◌≡◌, ◌+◌,
  ℕ, All-update_many, All, ◌==◌,
}

-- The order's amounts are those of its items, and each line total is that of its item.
pub record IsTotalled (o : PurchaseOrder) : Type 0 where
  pub costs : o.subtotal ≡ costs_of o.items
  pub discounts : o.discount_total ≡ discounts_of o.items
  pub taxes : o.tax_total ≡ taxes_of o.items
  pub whole : o.total ≡ sub_ℕ (o.subtotal + o.tax_total) o.discount_total
  pub lines : All (λ (i : OrderItem). i.line_total ≡ item_total i) o.items

with_total-sums :
    (is : List OrderItem)
    → (costs_of (map with_total is) ≡ costs_of is)
      × (discounts_of (map with_total is) ≡ discounts_of is)
      × (taxes_of (map with_total is) ≡ taxes_of is)
      × All (λ (i : OrderItem). i.line_total ≡ item_total i) (map with_total is)
with_total-sums [] = (refl, refl, refl, tt)
with_total-sums (i ∷ is) =
    let (costs, discounts, taxes, lines) = with_total-sums is in
    (omega (arith, costs), omega (arith, discounts), omega (arith, taxes), (refl, lines))

changed_order-IsTotalled :
    (ls : List ResponseLine) (o : PurchaseOrder) → IsTotalled (changed_order ls o)
unfolding changed_order
changed_order-IsTotalled ls o =
    let (costs, discounts, taxes, lines) = with_total-sums (change_items ls o.items) in
    record {
      costs = sym costs;
      discounts = sym discounts;
      taxes = sym taxes;
      whole = refl;
      lines = lines;
    }

either :
    (b : Bool) (os os' : List PurchaseOrder)
    → All IsTotalled os
    → All IsTotalled os'
    → All IsTotalled (if b then os else os')
either true os os' h k = h
either false os os' h k = k

-- A review leaves every purchase order with the right amounts, if they were right before: when the
-- proposed quantities and prices are taken over, the line totals, the subtotal, the discount, the
-- tax and the total are computed again from the changed lines.
pub review-IsTotalled :
    (dir : Directory) (now : ℕ) (actor : User) (id : ℕ) (dto : Decision) (st : State) {st' : State}
    → review dir now actor id dto st ≡ ok st'
    → All IsTotalled st.orders
    → All IsTotalled st'.orders
unfolding review
review-IsTotalled dir now actor id dto st {st'} e h =
    let (org, known, e1) = >>=-eq-ok (organization_id dir actor.id) _ e in
    let (p, found, e2) = >>=-eq-ok (find_response dir org id st) _ e1 in
    let (waits, e3) =
      raise_if-then (not (proposes_changes p.status) || not (is_pending p.review)) _ _ e2 in
    let changed =
      All-update_many IsTotalled (λ (o : PurchaseOrder). o.id == p.order) (changed_order p.lines)
        (λ o right. changed_order-IsTotalled p.lines o) st.orders h in
    subst (All IsTotalled) (ap (λ (x : State). x.orders) (ok-injective e3))
      (either dto.approved _ _ changed h)
