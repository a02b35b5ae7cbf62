-- ===== src/Returns/Frames.antt =====
-- What the steps of the transaction of `ReturnsService.create` leave alone.
use technova_pos_api.Prelude.{ℕ, ◌≡◌, refl, none, some, Option, List, [], ◌∷◌, arith, ◌∙◌}
use technova_pos_api.Prelude.Text.{Text}
use technova_pos_api.Directory.{User}
use technova_pos_api.Returns.State.{State, Sale, ReturnResolution, ReturnRequest}
use technova_pos_api.Returns.Prepare.{PreparedReturn}
use technova_pos_api.Returns.Refund.{resolution_of, refund_payments, give_store_credit, give_points}
use technova_pos_api.Returns.Restock.{return_line, return_lines}
use technova_pos_api.Returns.Create.{reverse_points, give_refund, return_row}

-- The rows that the accounts of the customer have nothing to do with.
pub record IsFramed (st st' : State) : Type 0 where
  pub stock : st'.stock ≡ st.stock
  pub sales : st'.sales ≡ st.sales
  pub items : st'.items ≡ st.items
  pub returns : st'.returns ≡ st.returns
  pub return_items : st'.return_items ≡ st.return_items
  pub agreements : st'.agreements ≡ st.agreements
  pub payments : st'.payments ≡ st.payments

pub give_store_credit-IsFramed :
    (id : ℕ) (resolution : ReturnResolution) (customer : Option ℕ) (cash : ℕ) (st : State)
    → IsFramed st (give_store_credit id resolution customer cash st)
unfolding give_store_credit
give_store_credit-IsFramed id resolution none cash st = record {
  stock = refl;
  sales = refl;
  items = refl;
  returns = refl;
  return_items = refl;
  agreements = refl;
  payments = refl;
}
give_store_credit-IsFramed id resolution (some c) cash st = record {
  stock = ground arith;
  sales = ground arith;
  items = ground arith;
  returns = ground arith;
  return_items = ground arith;
  agreements = ground arith;
  payments = ground arith;
}

pub give_points-IsFramed :
    (id : ℕ) (resolution : ReturnResolution) (customer : Option ℕ) (cash : ℕ) (st : State)
    → IsFramed st (give_points id resolution customer cash st)
unfolding give_points
give_points-IsFramed id resolution none cash st = record {
  stock = refl;
  sales = refl;
  items = refl;
  returns = refl;
  return_items = refl;
  agreements = refl;
  payments = refl;
}
give_points-IsFramed id resolution (some c) cash st = record {
  stock = ground arith;
  sales = ground arith;
  items = ground arith;
  returns = ground arith;
  return_items = ground arith;
  agreements = ground arith;
  payments = ground arith;
}

pub reverse_points-IsFramed :
    (id : ℕ) (customer points : Option ℕ) (total : ℕ) (st : State)
    → IsFramed st (reverse_points id customer points total st)
unfolding reverse_points
reverse_points-IsFramed id (some c) (some points) total st = record {
  stock = ground arith;
  sales = ground arith;
  items = ground arith;
  returns = ground arith;
  return_items = ground arith;
  agreements = ground arith;
  payments = ground arith;
}
reverse_points-IsFramed id none points total st = record {
  stock = refl;
  sales = refl;
  items = refl;
  returns = refl;
  return_items = refl;
  agreements = refl;
  payments = refl;
}
reverse_points-IsFramed id (some c) none total st = record {
  stock = refl;
  sales = refl;
  items = refl;
  returns = refl;
  return_items = refl;
  agreements = refl;
  payments = refl;
}

pub reverse_points-store_credit :
    (id : ℕ) (customer points : Option ℕ) (total : ℕ) (st : State)
    → (reverse_points id customer points total st).store_credit ≡ st.store_credit
unfolding reverse_points
reverse_points-store_credit id (some c) (some points) total st = ground arith
reverse_points-store_credit id none points total st = refl
reverse_points-store_credit id (some c) none total st = refl

-- The rows of the state before the loop over the lines.
pub give_refund-IsFramed :
    (now id : ℕ) (dto : ReturnRequest) (sale : Sale) (total cash : ℕ) (st : State)
    → let given = give_refund now id dto sale total cash st in
      (given.stock ≡ st.stock)
      × (given.sales ≡ st.sales)
      × (given.items ≡ st.items)
      × (given.returns ≡ return_row id dto total cash ∷ st.returns)
      × (given.return_items ≡ st.return_items)
      × (given.agreements ≡ st.agreements)
unfolding give_refund
give_refund-IsFramed now id dto sale total cash st =
    let entered = record st {
      payments = refund_payments now dto cash dto.refund_method st.payments;
      returns = return_row id dto total cash ∷ st.returns;
    } in
    let credited = give_store_credit id (resolution_of dto) sale.customer cash entered in
    let first = give_store_credit-IsFramed id (resolution_of dto) sale.customer cash entered in
    let second = give_points-IsFramed id (resolution_of dto) sale.customer cash credited in
    (
      second.stock ∙ first.stock,
      second.sales ∙ first.sales,
      second.items ∙ first.items,
      second.returns ∙ first.returns,
      second.return_items ∙ first.return_items,
      second.agreements ∙ first.agreements,
    )

-- The loop over the lines writes neither sales nor money.
pub record IsLined (st st' : State) : Type 0 where
  pub sales : st'.sales ≡ st.sales
  pub items : st'.items ≡ st.items
  pub returns : st'.returns ≡ st.returns
  pub agreements : st'.agreements ≡ st.agreements
  pub payments : st'.payments ≡ st.payments
  pub store_credit : st'.store_credit ≡ st.store_credit

pub return_lines-IsLined :
    (actor : User) (now id : ℕ) (reason : Text) (sale : Sale) (rows : List PreparedReturn)
    (st : State)
    → IsLined st (return_lines actor now id reason sale rows st)
unfolding return_lines return_line
return_lines-IsLined actor now id reason sale [] st = record {
  sales = refl;
  items = refl;
  returns = refl;
  agreements = refl;
  payments = refl;
  store_credit = refl;
}
return_lines-IsLined actor now id reason sale (row ∷ rows) st =
    let rest =
      return_lines-IsLined actor now id reason sale rows
        (return_line actor now id reason sale row st) in
    record {
      sales = rest.sales;
      items = rest.items;
      returns = rest.returns;
      agreements = rest.agreements;
      payments = rest.payments;
      store_credit = rest.store_credit;
    }
