-- ===== src/Sales/Frames.antt =====
-- What the statements behind the loop leave alone.
use technova_pos_api.Prelude.Result.{>>=-eq-ok, ok-injective, ok}
use technova_pos_api.Prelude.{
  map, ◌++◌, ℕ, ◌-◌, ◌≡◌, refl, sym, ap, ◌∙◌, true, false, Bool, Option, none, some, ltb,
  if◌then◌else◌, Option-cases, inl, inr, arith,
}
use technova_pos_api.Calendar.{Moment}
use technova_pos_api.Sales.State.{State, LoyaltyRule, CreditTerms, SaleRequest}
use technova_pos_api.Sales.Customers.{points_of, store_credit_payment}
use technova_pos_api.Sales.Checks.{Settlement}
use technova_pos_api.Sales.Settling.{
  payment_row, ensure_account, earned_points, spend_store_credit, open_agreement, redeem_points,
  award_points, update_loyalty,
}
use technova_pos_api.Sales.Checkout.{settle_sale}

-- Only loyalty rows differ.
pub record IsLoyaltyStep (st st' : State) : Type 0 where
  pub stock : st'.stock ≡ st.stock
  pub sales : st'.sales ≡ st.sales
  pub agreements : st'.agreements ≡ st.agreements
  pub payments : st'.payments ≡ st.payments

equal-IsLoyaltyStep : (st st' : State) → st ≡ st' → IsLoyaltyStep st st'
equal-IsLoyaltyStep st st' e = record {
  stock = ap (λ (x : State). x.stock) (sym e);
  sales = ap (λ (x : State). x.sales) (sym e);
  agreements = ap (λ (x : State). x.agreements) (sym e);
  payments = ap (λ (x : State). x.payments) (sym e);
}

redeem_points-frame :
    (sale c requested : ℕ) (st : State) {st' : State}
    → redeem_points sale c requested st ≡ ok st'
    → IsLoyaltyStep st st'
unfolding redeem_points
redeem_points-frame sale c requested st e = elim (Option-cases (points_of c st.loyalty)) [
  | inl missing ↦ ground arith
  | inr (points, found) ↦ record {
    stock = ground arith;
    sales = ground arith;
    agreements = ground arith;
    payments = ground arith;
  }
]

redeemed-frame :
    (sale c requested : ℕ) (wanted : Bool) (st : State) {st' : State}
    → (if wanted then redeem_points sale c requested st else ok st) ≡ ok st'
    → IsLoyaltyStep st st'
redeemed-frame sale c requested true st e = redeem_points-frame sale c requested st e
redeemed-frame sale c requested false st e = equal-IsLoyaltyStep st _ (ok-injective e)

award_points-frame :
    (sale c earned : ℕ) (st : State) → IsLoyaltyStep st (award_points sale c earned st)
unfolding award_points
award_points-frame sale c earned st = record {
  stock = ground arith;
  sales = ground arith;
  agreements = ground arith;
  payments = ground arith;
}

pub update_loyalty-frame :
    (sale : ℕ) (rule : Option LoyaltyRule) (dto : SaleRequest) (payable : ℕ) (c : Option ℕ)
    (st : State) {st' : State}
    → update_loyalty sale rule dto payable c st ≡ ok st'
    → IsLoyaltyStep st st'
unfolding update_loyalty
update_loyalty-frame sale rule dto payable none st e = equal-IsLoyaltyStep st _ (ok-injective e)
update_loyalty-frame sale rule dto payable (some c) st {st'} e =
    let ready = record st { loyalty = ensure_account c st.loyalty } in
    let (r, redeemed, e1) =
      >>=-eq-ok
        (if ltb 0 dto.loyalty_points
          then redeem_points sale c dto.loyalty_points ready
          else ok ready)
        _ e in
    let spent =
      redeemed-frame sale c dto.loyalty_points (ltb 0 dto.loyalty_points) ready redeemed in
    let awarded = award_points-frame sale c (earned_points rule payable) r in
    let done = equal-IsLoyaltyStep _ st' (ok-injective e1) in
    record {
      stock = done.stock ∙ awarded.stock ∙ spent.stock;
      sales = done.sales ∙ awarded.sales ∙ spent.sales;
      agreements = done.agreements ∙ awarded.agreements ∙ spent.agreements;
      payments = done.payments ∙ awarded.payments ∙ spent.payments;
    }

-- Neither goods nor points move when the sale is settled.
pub record IsSettled (st st' : State) : Type 0 where
  pub stock : st'.stock ≡ st.stock
  pub sales : st'.sales ≡ st.sales
  pub loyalty : st'.loyalty ≡ st.loyalty

open_agreement-frame :
    (sale : ℕ) (c : Option ℕ) (terms : Option CreditTerms) (balance : ℕ) (st : State)
    → IsSettled st (open_agreement sale c terms balance st)
unfolding open_agreement
open_agreement-frame sale (some c) (some terms) balance st = record {
  stock = refl;
  sales = refl;
  loyalty = refl;
}
open_agreement-frame sale none terms balance st = record {
  stock = refl;
  sales = refl;
  loyalty = refl;
}
open_agreement-frame sale (some c) none balance st = record {
  stock = refl;
  sales = refl;
  loyalty = refl;
}

spend_store_credit-frame :
    (sale : ℕ) (c : Option ℕ) (amount : ℕ) (st : State)
    → IsSettled st (spend_store_credit sale c amount st)
unfolding spend_store_credit
spend_store_credit-frame sale none amount st = record { stock = refl; sales = refl; loyalty = refl }
spend_store_credit-frame sale (some c) amount st = record {
  stock = ground arith;
  sales = ground arith;
  loyalty = ground arith;
}

pub spend_store_credit-agreements :
    (sale : ℕ) (c : Option ℕ) (amount : ℕ) (st : State)
    → (spend_store_credit sale c amount st).agreements ≡ st.agreements
unfolding spend_store_credit
spend_store_credit-agreements sale none amount st = refl
spend_store_credit-agreements sale (some c) amount st = ground arith

pub settle_sale-frame :
    (sale : ℕ) (now : Moment) (dto : SaleRequest) (s : Settlement) (st : State)
    → IsSettled st (settle_sale sale now dto s st)
settle_sale-frame sale now dto s st =
    let opened = open_agreement-frame sale dto.customer dto.credit (s.payable - s.paid) _ in
    let spent = spend_store_credit-frame sale dto.customer (store_credit_payment dto.payments) _ in
    record {
      stock = opened.stock ∙ spent.stock;
      sales = opened.sales ∙ spent.sales;
      loyalty = opened.loyalty ∙ spent.loyalty;
    }

spend_store_credit-payments :
    (sale : ℕ) (c : Option ℕ) (amount : ℕ) (st : State)
    → (spend_store_credit sale c amount st).payments ≡ st.payments
unfolding spend_store_credit
spend_store_credit-payments sale none amount st = refl
spend_store_credit-payments sale (some c) amount st = ground arith

open_agreement-payments :
    (sale : ℕ) (c : Option ℕ) (terms : Option CreditTerms) (balance : ℕ) (st : State)
    → (open_agreement sale c terms balance st).payments ≡ st.payments
unfolding open_agreement
open_agreement-payments sale (some c) (some terms) balance st = refl
open_agreement-payments sale none terms balance st = refl
open_agreement-payments sale (some c) none balance st = refl

pub settle_sale-payments :
    (sale : ℕ) (now : Moment) (dto : SaleRequest) (s : Settlement) (st : State)
    → (settle_sale sale now dto s st).payments
      ≡ map (payment_row sale now) dto.payments ++ st.payments
settle_sale-payments sale now dto s st =
    open_agreement-payments sale dto.customer dto.credit (s.payable - s.paid) _
    ∙ spend_store_credit-payments sale dto.customer (store_credit_payment dto.payments) _
