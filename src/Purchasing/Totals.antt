-- ===== src/Purchasing/Totals.antt =====
-- The total of a purchase order.
use technova_pos_api.Prelude.{ℕ, ◌+◌, ◌≡◌, refl, List, [], ◌∷◌, map, any, sum_of, arith, All, false}
use technova_pos_api.Prelude.Int.{pos, pos_part, ltb_ℤ}
use technova_pos_api.Prelude.Result.{ok}
use technova_pos_api.Directory.{Directory, User}
use technova_pos_api.Purchasing.State.{State, PurchaseOrder, OrderItem, Supplier}
use technova_pos_api.Purchasing.Order.{
  ItemInput, OrderRequest, create, new_order, new_item, line_of, subtotal_of, discounts_of,
  taxes_of,
}

-- A line total that is an amount.
abbrev pub IsAmount : OrderItem → Type 0
IsAmount i = i.line_total ≡ pos (pos_part i.line_total)

total_lem :
    (is : List ItemInput)
    → any (λ i. ltb_ℤ (line_of i) (pos 0)) is ≡ false
    → All IsAmount (map new_item is)
      × (subtotal_of is + taxes_of is
          ≡ discounts_of is + sum_of (λ i. pos_part i.line_total) (map new_item is))
total_lem [] h = ground arith
total_lem (i ∷ is) h = ground (arith, total_lem is)

products_lem :
    (is : List ItemInput) → map (λ i. i.product) (map new_item is) ≡ map (λ i. i.product) is
products_lem [] = refl
products_lem (i ∷ is) = cc (products_lem is)

-- A new purchase order stands before the others, no line of it is negative, and its total is the
-- sum of its line totals.
pub create-total :
    (dir : Directory) (suppliers : List Supplier) (new_id : ℕ) (actor : User) (dto : OrderRequest)
    (st : State) {st' : State}
    → create dir suppliers new_id actor dto st ≡ ok st'
    → (o : PurchaseOrder) × (st'.orders ≡ o ∷ st.orders)
      × (map (λ i. i.product) o.items ≡ map (λ i. i.product) dto.items)
      × All IsAmount o.items
      × (o.total ≡ pos (sum_of (λ i. pos_part i.line_total) o.items))
unfolding create
create-total dir suppliers new_id actor dto st {st'} e =
    let (amounts, total) = total_lem dto.items (ground arith) in
    (new_order new_id dto, ground arith, products_lem dto.items, amounts, ground (arith, total))
