-- ===== src/Returns/Money.antt =====
-- What a customer gets for returned goods, under `ReturnsService.create`.
use mathlib.Core.Path.{subst}
use technova_pos_api.Returns.Prepare.{find_sale}
use technova_pos_api.Returns.Frames.{give_store_credit-IsFramed, give_points-IsFramed}
use technova_pos_api.Returns.Steps.{create-IsCreated}
use technova_pos_api.Directory.{User, Directory}
use technova_pos_api.Returns.Create.{return_row, total_refund, create, ReturnResult, give_refund}
use technova_pos_api.Payment.{PaymentMethod}
use technova_pos_api.Prelude.Result.{raise_if-ok, raise_if, >>=-eq-ok, ok}
use technova_pos_api.Prelude.Int.{negsuc, pos, ◌≤ℤ◌, neg_part, pos_part, ℤ}
use technova_pos_api.Sales.State.{StoreCreditAccount}
use technova_pos_api.Returns.State.{Sale, State, ReturnResolution, ReturnRequest, RefundPayment}
use technova_pos_api.Returns.Refund.{
  gives_points, give_points, gives_store_credit, refund_payments, give_store_credit, pays_back,
  is_given, resolution_of, is_original, cash_refund, credit_offset, credit_account, check_refund,
}
use technova_pos_api.Prelude.{
  sym, ◌∙◌, ap, refl, if◌then◌else◌, some, none, [], arith, ◌∷◌, List, Option, ◌&&◌, not, false,
  true, ◌≡◌, ◌+◌, ℕ, sum_of,
}

-- What was refunded, and what the store credit accounts hold.
abbrev pub refunded_total : List RefundPayment → ℕ
refunded_total = sum_of (λ (p : RefundPayment). p.amount)

abbrev pub store_credit_total : List StoreCreditAccount → ℕ
store_credit_total = sum_of (λ (a : StoreCreditAccount). a.balance)

-- What is not taken off the customer's debt is given back.
credit_offset-cash_refund :
    (total : ℕ) (due : ℤ)
    → (pos_part (credit_offset total due) + cash_refund total due
        ≡ total + neg_part (credit_offset total due))
      × (credit_offset total due ≤ℤ due)
unfolding credit_offset cash_refund
credit_offset-cash_refund total (pos due) = ground arith
credit_offset-cash_refund total (negsuc n) = ground arith

credit_account-total :
    (c amount : ℕ) (accounts : List StoreCreditAccount)
    → store_credit_total (credit_account c amount accounts) ≡ store_credit_total accounts + amount
unfolding credit_account
credit_account-total c amount [] = omega arith
credit_account-total c amount (a ∷ rest) = ground (arith, credit_account-total c amount rest)

-- What the guards make sure of: there is a customer or money goes back, and there is a method
-- where money goes back.
record IsChecked (dto : ReturnRequest) (customer : Option ℕ) (cash : ℕ) : Type 0 where
  registered : is_original (resolution_of dto) ≡ false → is_given customer ≡ true
  has_method : pays_back dto cash ≡ true → is_given dto.refund_method ≡ true

check_refund-IsChecked :
    (dto : ReturnRequest) (customer : Option ℕ) (cash : ℕ)
    → check_refund dto customer cash ≡ ok tt
    → IsChecked dto customer cash
unfolding check_refund
check_refund-IsChecked dto customer cash e =
    let (u, first, e1) =
      >>=-eq-ok (raise_if (not (is_original (resolution_of dto)) && not (is_given customer)) _) _
        e in
    let (v, second, e2) =
      >>=-eq-ok (raise_if (pays_back dto cash && not (is_given dto.refund_method)) _) _ e1 in
    record {
      registered = λ h. ground (arith, raise_if-ok _ _ first);
      has_method = λ h. ground (arith, raise_if-ok _ _ second);
    }

-- Money that goes back is a payment, and what becomes store credit is on an account.
refund_payments-total :
    (now : ℕ) (dto : ReturnRequest) (cash : ℕ) (method : Option PaymentMethod)
    (ps : List RefundPayment)
    → (pays_back dto cash ≡ true → is_given method ≡ true)
    → refunded_total (refund_payments now dto cash method ps)
      ≡ refunded_total ps + (if is_original (resolution_of dto) then cash else 0)
unfolding refund_payments
refund_payments-total now dto cash none ps has = ground (arith, has)
refund_payments-total now dto cash (some m) ps has = ground (arith, has)

give_store_credit-total :
    (id : ℕ) (resolution : ReturnResolution) (customer : Option ℕ) (cash : ℕ) (st : State)
    → (is_original resolution ≡ false → is_given customer ≡ true)
    → store_credit_total (give_store_credit id resolution customer cash st).store_credit
      ≡ store_credit_total st.store_credit + (if gives_store_credit resolution then cash else 0)
unfolding give_store_credit
give_store_credit-total id resolution none cash st has = ground (arith, has)
give_store_credit-total id resolution (some c) cash st has =
    ground (arith, credit_account-total c cash st.store_credit)

give_points-store_credit :
    (id : ℕ) (resolution : ReturnResolution) (customer : Option ℕ) (cash : ℕ) (st : State)
    → (give_points id resolution customer cash st).store_credit ≡ st.store_credit
unfolding give_points
give_points-store_credit id resolution none cash st = refl
give_points-store_credit id resolution (some c) cash st = ground arith

one_way :
    (r : ReturnResolution) (cash : ℕ)
    → (if is_original r then cash else 0)
        + (if gives_store_credit r then cash else 0)
        + (if gives_points r then cash else 0)
      ≡ cash
one_way ReturnResolution.original_method cash = omega arith
one_way ReturnResolution.store_credit cash = omega arith
one_way ReturnResolution.loyalty_points cash = omega arith
one_way ReturnResolution.product_exchange cash = omega arith

-- The money side of a completed return. What the goods are worth is split without loss into the
-- part taken off the customer's debt, which never exceeds the balance due, and the rest. The rest
-- comes back in full: as a refund payment or as store credit, unless points were chosen.
pub create-money :
    (dir : Directory) (now id : ℕ) (actor : User) (dto : ReturnRequest) (st : State)
    {result : ReturnResult} {st' : State}
    → create dir now id actor dto st ≡ ok (result, st')
    → (org : ℕ) × (sale : Sale) × (find_sale dir org dto.sale st ≡ ok sale)
      × (pos_part result.credit_offset + result.cash_refund
          ≡ result.total + neg_part result.credit_offset)
      × (result.credit_offset ≤ℤ sale.balance_due)
      × (refunded_total st'.payments
            + store_credit_total st'.store_credit
            + (if gives_points (resolution_of dto) then result.cash_refund else 0)
          ≡ refunded_total st.payments + store_credit_total st.store_credit + result.cash_refund)
unfolding give_refund
create-money dir now id actor dto st {result} {st'} e =
    let done = create-IsCreated dir now id actor dto st e in
    let total = total_refund done.rows in
    let cash = cash_refund total done.sale.balance_due in
    let resolution = resolution_of dto in
    let sound = check_refund-IsChecked dto done.sale.customer cash done.checked in
    let (split, within) = credit_offset-cash_refund total done.sale.balance_due in
    let entered = record st {
      payments = refund_payments now dto cash dto.refund_method st.payments;
      returns = return_row id dto total cash ∷ st.returns;
    } in
    let credited = give_store_credit id resolution done.sale.customer cash entered in
    let paid : refunded_total st'.payments ≡ _ =
      ap refunded_total done.payments
      ∙ ap refunded_total (
          (give_points-IsFramed id resolution done.sale.customer cash credited).payments
          ∙ (give_store_credit-IsFramed id resolution done.sale.customer cash entered).payments)
      ∙ refund_payments-total now dto cash dto.refund_method st.payments sound.has_method in
    let stored : store_credit_total st'.store_credit ≡ _ =
      ap store_credit_total done.store_credit
      ∙ ap store_credit_total
          (give_points-store_credit id resolution done.sale.customer cash credited)
      ∙ give_store_credit-total id resolution done.sale.customer cash entered sound.registered in
    let (same_split, same_within, same_money) =
      subst
        (λ (r : ReturnResult).
          (pos_part r.credit_offset + r.cash_refund ≡ r.total + neg_part r.credit_offset)
          × (r.credit_offset ≤ℤ done.sale.balance_due)
          × (refunded_total st'.payments
                + store_credit_total st'.store_credit
                + (if gives_points resolution then r.cash_refund else 0)
              ≡ refunded_total st.payments + store_credit_total st.store_credit + r.cash_refund))
        (sym done.result_lem)
        (split, within, omega (arith, paid, stored, one_way resolution cash)) in
    (done.org, done.sale, done.found, same_split, same_within, same_money)
