-- ===== src/Returns/Counted.antt =====
-- The counts of returned goods, before and after `ReturnsService.create`.
use technova_pos_api.Returns.Refund.{cash_refund}
use technova_pos_api.Returns.Frames.{give_refund-IsFramed}
use technova_pos_api.Returns.Steps.{given, create-IsCreated}
use technova_pos_api.Returns.Create.{total_refund, create, ReturnResult, return_row}
use technova_pos_api.Prelude.{◌≤◌, sym, ap, ◌∙◌}
use mathlib.Core.Path.{subst}
use technova_pos_api.Prelude.Result.{ok}
use technova_pos_api.Directory.{Directory, User}
use technova_pos_api.Prelude.{ℕ, ◌+◌, ◌≡◌, ◌≢◌, refl, true, List, [], ◌∷◌, arith, sum_of, All}
use technova_pos_api.Prelude.Text.{Text}
use technova_pos_api.Directory.{User}
use technova_pos_api.Returns.State.{ReturnRequest, State, Sale, Return, ReturnItem, is_completed}
use technova_pos_api.Returns.Prepare.{PreparedReturn, returned_of}
use technova_pos_api.Returns.Restock.{return_line, return_lines, return_item}
use technova_pos_api.Returns.Within.{sold_of, prepare_lines-within, IsWithinSold, row_quantity}

-- A return whose id no row refers to changes no count.
returned_of-fresh :
    (j : ℕ) (x : Return) (rs : List Return) (is : List ReturnItem)
    → All (λ (r : ReturnItem). r.of ≢ x.id) is
    → returned_of j (x ∷ rs) is ≡ returned_of j rs is
unfolding returned_of
returned_of-fresh j x rs [] h = refl
returned_of-fresh j x rs (r ∷ is) h = ground (arith, h.0, returned_of-fresh j x rs is h.1)

-- The lines of a completed return count in full.
return_lines-returned :
    (actor : User) (now id : ℕ) (reason : Text) (sale : Sale) (j : ℕ) (x : Return)
    (rs : List Return) (rows : List PreparedReturn) (st : State)
    → x.id ≡ id
    → is_completed x.status ≡ true
    → returned_of j (x ∷ rs) (return_lines actor now id reason sale rows st).return_items
      ≡ returned_of j (x ∷ rs) st.return_items + sum_of (row_quantity j) rows
unfolding return_lines return_line return_item returned_of
return_lines-returned actor now id reason sale j x rs [] st own c = omega arith
return_lines-returned actor now id reason sale j x rs (row ∷ rows) st own c =
    let rest =
      return_lines-returned actor now id reason sale j x rs rows
        (return_line actor now id reason sale row st) own c in
    ground (arith, rest)

-- A return is accepted only for goods that were sold and not returned before: if no line has more
-- returned than was sold, no line has so afterwards, with partial returns and several lines of one
-- product counted together. The database gives an id that no row refers to.
pub create-IsWithinSold :
    (dir : Directory) (now id : ℕ) (actor : User) (dto : ReturnRequest) (st : State)
    {result : ReturnResult} {st' : State}
    → create dir now id actor dto st ≡ ok (result, st')
    → All (λ (r : ReturnItem). r.of ≢ id) st.return_items
    → IsWithinSold st
    → IsWithinSold st'
unfolding return_row
create-IsWithinSold dir now id actor dto st {result} {st'} e fresh h j =
    let done = create-IsCreated dir now id actor dto st e in
    let total = total_refund done.rows in
    let x = return_row id dto total (cash_refund total done.sale.balance_due) in
    let start = given now id dto done.sale done.rows st in
    let added =
      return_lines-returned actor now id dto.reason done.sale j x st.returns done.rows start refl
        refl in
    let same_items =
      (give_refund-IsFramed now id dto done.sale total (cash_refund total done.sale.balance_due)
        st).4 in
    let old = returned_of-fresh j x st.returns st.return_items fresh in
    let counted : returned_of j st'.returns st'.return_items
        ≡ returned_of j st.returns st.return_items + sum_of (row_quantity j) done.rows =
      ap (λ rs. returned_of j rs st'.return_items) done.returns
      ∙ ap (returned_of j (x ∷ st.returns)) done.return_items
      ∙ added
      ∙ ap (λ is. returned_of j (x ∷ st.returns) is + sum_of (row_quantity j) done.rows) same_items
      ∙ ap (λ n. n + sum_of (row_quantity j) done.rows) old in
    let within = prepare_lines-within st done.sale dto.items done.prepared j (h j) in
    subst (λ n. n ≤ sold_of j st'.items) (sym counted)
      (subst
        (λ is.
          returned_of j st.returns st.return_items + sum_of (row_quantity j) done.rows
          ≤ sold_of j is)
        (sym done.items) within)
