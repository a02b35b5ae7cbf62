-- ===== src/Returns/Prepare.antt =====
-- What `ReturnsService.create` checks and computes before its transaction: the lines.
use technova_pos_api.Prelude.{
  ℕ, ◌+◌, ◌*◌, ◌/◌, Bool, true, false, ◌&&◌, not, none, some, List, [], ◌∷◌, ◌==◌, ltb, find,
  filter, any, contains, sum_of, if◌then◌else◌,
}
use technova_pos_api.Prelude.Result.{
  Result, ok, or_raise, raise_if, ◌>>=◌, ◌>>◌, bad_request, not_found, conflict, lit, about,
}
use technova_pos_api.Directory.{Directory, find_branch}
use technova_pos_api.Stock.{piece}
use technova_pos_api.Returns.State.{
  State, Sale, SaleItem, Return, ReturnItem, ReturnLine, is_completed, is_returnable,
}

-- A row of `prepared`.
pub record PreparedReturn : Type 0 where
  pub input : ReturnLine
  pub item : SaleItem
  pub refund : ℕ

abbrev pub has_branch : Directory → ℕ → ℕ → Bool
has_branch dir org b = elim (find_branch dir org b) [ none ↦ false | some _ ↦ true ]

-- `sale.findFirst`
unfoldable pub find_sale : Directory → ℕ → ℕ → State → Result Sale
find_sale dir org id st =
    or_raise
      (find (λ (s : Sale). s.id == id && has_branch dir org s.branch && is_returnable s.status)
        st.sales)
      (not_found (lit "Eligible sale not found."))

abbrev pub items_of : ℕ → State → List SaleItem
items_of sale st = filter (λ (i : SaleItem). i.sale == sale) st.items

-- `return: { status: COMPLETED }`
abbrev pub is_of_completed : List Return → ReturnItem → Bool
is_of_completed rs r = any (λ (x : Return). x.id == r.of && is_completed x.status) rs

-- `returnItem.aggregate`: what was returned of a sale line before.
unfoldable pub returned_of : ℕ → List Return → List ReturnItem → ℕ
returned_of item rs =
    sum_of
      (λ (r : ReturnItem). if r.sale_item == item && is_of_completed rs r then r.quantity else 0)

abbrev pub is_serialized : SaleItem → Bool
is_serialized i = elim i.unit [ none ↦ false | some _ ↦ true ]

-- `lineTotal / quantity * input.quantity`, rounded down to the unit of amounts.
unfoldable pub refund_of : SaleItem → ℕ → ℕ
refund_of i quantity = i.line_total * quantity / i.quantity

-- One round of the loop. A quantity that exceeds what remains exceeds it by a thousandth or more,
-- which is more than 0.0001.
unfoldable pub prepare_line : State → Sale → List ℕ → ReturnLine → Result PreparedReturn
prepare_line st sale seen input = do
  raise_if (contains input.sale_item seen)
      (bad_request (lit "A sale line can appear only once in a return."))
  item ←
      or_raise (find (λ (i : SaleItem). i.id == input.sale_item) (items_of sale.id st))
        (bad_request (lit "Return line does not belong to this sale."))
  raise_if (ltb item.quantity (returned_of item.id st.returns st.return_items + input.quantity))
      (conflict (about "Return quantity exceeds the remaining quantity for %." item.product))
  raise_if (is_serialized item && not (input.quantity == piece))
      (bad_request (lit "A serialized sale line must be returned as one unit."))
  ok (record { input = input; item = item; refund = refund_of item input.quantity })

unfoldable pub prepare_lines :
    State → Sale → List ℕ → List ReturnLine → Result (List PreparedReturn)
prepare_lines st sale seen [] = ok []
prepare_lines st sale seen (input ∷ inputs) = do
  row ← prepare_line st sale seen input
  rows ← prepare_lines st sale (input.sale_item ∷ seen) inputs
  ok (row ∷ rows)
