-- ===== src/Returns/Steps.antt =====
-- The rows after `ReturnsService.create`, each by the step that writes it.
use technova_pos_api.Prelude.{ℕ, ◌≡◌, List, [], ◌∷◌, ◌==◌, ◌∙◌, sym, ap, update_many}
use technova_pos_api.Prelude.Result.{ok, >>=-eq-ok, ok_pair-injective}
use technova_pos_api.Directory.{Directory, User, organization_id}
use technova_pos_api.Returns.State.{State, Sale, ReturnRequest}
use technova_pos_api.Returns.Prepare.{PreparedReturn, find_sale, prepare_lines}
use technova_pos_api.Returns.Refund.{cash_refund, credit_offset, check_refund}
use technova_pos_api.Returns.Restock.{return_lines}
use technova_pos_api.Returns.Offset.{offset_credit}
use technova_pos_api.Returns.Frames.{
  give_refund-IsFramed, return_lines-IsLined, reverse_points-IsFramed, reverse_points-store_credit,
}
use technova_pos_api.Returns.Create.{
  ReturnResult, create, complete, give_refund, return_row, total_refund, settle_sale, refunded_sale,
  is_fully_returned, points_before, status_after,
}

-- The state in front of the loop over the lines, and behind it.
abbrev pub given : ℕ → ℕ → ReturnRequest → Sale → List PreparedReturn → State → State
given now id dto sale rows st =
    let total = total_refund rows in
    give_refund now id dto sale total (cash_refund total sale.balance_due) st

abbrev pub looped : User → ℕ → ℕ → ReturnRequest → Sale → List PreparedReturn → State → State
looped actor now id dto sale rows st =
    return_lines actor now id dto.reason sale rows (given now id dto sale rows st)

pub record IsCreated (dir : Directory) (now id : ℕ) (actor : User) (dto : ReturnRequest)
    (st : State) (result : ReturnResult) (st' : State) : Type 0 where
  pub org : ℕ
  pub sale : Sale
  pub rows : List PreparedReturn
  pub known : organization_id dir actor.id ≡ ok org
  pub found : find_sale dir org dto.sale st ≡ ok sale
  pub prepared : prepare_lines st sale [] dto.items ≡ ok rows
  pub checked :
      check_refund dto sale.customer (cash_refund (total_refund rows) sale.balance_due) ≡ ok tt
  pub result_lem : result ≡ record {
    return = id;
    total = total_refund rows;
    credit_offset = credit_offset (total_refund rows) sale.balance_due;
    cash_refund = cash_refund (total_refund rows) sale.balance_due;
    status = status_after (is_fully_returned sale (looped actor now id dto sale rows st));
  }
  pub stock : st'.stock ≡ (looped actor now id dto sale rows st).stock
  pub items : st'.items ≡ st.items
  pub returns :
      st'.returns
      ≡ return_row id dto (total_refund rows) (cash_refund (total_refund rows) sale.balance_due)
        ∷ st.returns
  pub return_items : st'.return_items ≡ (looped actor now id dto sale rows st).return_items
  pub sales :
      st'.sales
      ≡ update_many
          (λ (s : Sale). s.id == sale.id)
          (refunded_sale
            (is_fully_returned sale (looped actor now id dto sale rows st))
            (credit_offset (total_refund rows) sale.balance_due)
            (cash_refund (total_refund rows) sale.balance_due))
          st.sales
  pub agreements :
      st'.agreements
      ≡ offset_credit sale.id (credit_offset (total_refund rows) sale.balance_due) st.agreements
  pub payments : st'.payments ≡ (given now id dto sale rows st).payments
  pub store_credit : st'.store_credit ≡ (given now id dto sale rows st).store_credit

pub create-IsCreated :
    (dir : Directory) (now id : ℕ) (actor : User) (dto : ReturnRequest) (st : State)
    {result : ReturnResult} {st' : State}
    → create dir now id actor dto st ≡ ok (result, st')
    → IsCreated dir now id actor dto st result st'
unfolding create complete settle_sale
create-IsCreated dir now id actor dto st e =
    let (org, known, e1) = >>=-eq-ok (organization_id dir actor.id) _ e in
    let (sale, found, e2) = >>=-eq-ok (find_sale dir org dto.sale st) _ e1 in
    let (rows, prepared, e3) = >>=-eq-ok (prepare_lines st sale [] dto.items) _ e2 in
    let total = total_refund rows in
    let cash = cash_refund total sale.balance_due in
    let (u, checked, e4) = >>=-eq-ok (check_refund dto sale.customer cash) _ e3 in
    let (is_result, is_state) = ok_pair-injective e4 in
    let first = give_refund-IsFramed now id dto sale total cash st in
    let loop =
      return_lines-IsLined actor now id dto.reason sale rows (given now id dto sale rows st) in
    let settled =
      settle_sale sale (credit_offset total sale.balance_due) cash
        (looped actor now id dto sale rows st) in
    let last = reverse_points-IsFramed id sale.customer (points_before sale st) total settled in
    record {
      org = org;
      sale = sale;
      rows = rows;
      known = known;
      found = found;
      prepared = prepared;
      checked = checked;
      result_lem = sym is_result;
      stock = ap (λ (x : State). x.stock) (sym is_state) ∙ last.stock;
      items = ap (λ (x : State). x.items) (sym is_state) ∙ last.items ∙ loop.items ∙ first.2;
      returns =
          ap (λ (x : State). x.returns) (sym is_state) ∙ last.returns ∙ loop.returns ∙ first.3;
      return_items = ap (λ (x : State). x.return_items) (sym is_state) ∙ last.return_items;
      sales =
          ap (λ (x : State). x.sales) (sym is_state)
          ∙ last.sales
          ∙ ap
              (update_many (λ (s : Sale). s.id == sale.id)
                (refunded_sale (is_fully_returned sale (looped actor now id dto sale rows st))
                  (credit_offset total sale.balance_due) cash))
              (loop.sales ∙ first.1);
      agreements =
          ap (λ (x : State). x.agreements) (sym is_state)
          ∙ last.agreements
          ∙ ap (offset_credit sale.id (credit_offset total sale.balance_due))
              (loop.agreements ∙ first.5);
      payments = ap (λ (x : State). x.payments) (sym is_state) ∙ last.payments ∙ loop.payments;
      store_credit =
          ap (λ (x : State). x.store_credit) (sym is_state)
          ∙ reverse_points-store_credit id sale.customer (points_before sale st) total settled
          ∙ loop.store_credit;
    }
