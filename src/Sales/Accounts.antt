-- ===== src/Sales/Accounts.antt =====
-- The customer's loyalty points under `SalesService.create`.
use technova_pos_api.Sales.Pricing.{cents}
use technova_pos_api.Sales.Frames.{update_loyalty-frame, settle_sale-frame}
use mathlib.Core.Path.{subst}
use mathlib.Core.Option.{Option}
use native.Mathlib.Nat.{div-mul-le_self, lt-div-mul-add}
use mathlib.Core.Option
use technova_pos_api.Directory.{User, organization_id}
use technova_pos_api.Calendar.{Moment}
use mathlib.Core.Bool.{true, false}
use technova_pos_api.Prelude.{
  ◌⊎◌, ◌<◌, ◌/◌, ◌*◌, ltb→lt, suc, ◌∙◌, sym, ap, if◌then◌else◌, ltb, Bool, ℕ, ◌+◌, ◌-◌, ◌≤◌, ◌≡◌,
  refl, inl, inr, none, some, List, [], ◌∷◌, ◌==◌, arith, Bool-cases,
}
use technova_pos_api.Prelude.Result.{>>=-eq-ok, ok-injective, ok}
use technova_pos_api.Sales.State.{Sale, SaleRequest, Shop, LoyaltyRule, State, LoyaltyAccount}
use technova_pos_api.Sales.Customers.{active_loyalty_rule, points_of}
use technova_pos_api.Sales.Checks.{Settlement, PreparedLine}
use technova_pos_api.Sales.Selling.{sell_stock, sell_line, sell_lines}
use technova_pos_api.Sales.Settling.{
  earned_points, update_loyalty, redeem_points, award_points, ensure_account, change_points,
}
use technova_pos_api.Sales.Checkout.{sale_row, settle_sale, prepare_sale, checkout, create}

-- The points of a customer; no account is no points.
abbrev pub points_or_zero : ℕ → List LoyaltyAccount → ℕ
points_or_zero c accounts = elim (points_of c accounts) [ none ↦ 0 | some n ↦ n ]

pub points_of-change_points :
    (c : ℕ) (f : ℕ → ℕ) (accounts : List LoyaltyAccount)
    → points_of c (change_points c f accounts) ≡ Option.map f (points_of c accounts)
points_of-change_points c f [] = refl
points_of-change_points c f (a ∷ rest) = elim (Bool-cases (a.customer == c)) [
  | inl own ↦ rw (own, own) refl
  | inr other ↦ rw (other, other) (points_of-change_points c f rest)
]

pub points_of-ensure_account :
    (c : ℕ) (accounts : List LoyaltyAccount)
    → points_of c (ensure_account c accounts) ≡ some (points_or_zero c accounts)
points_of-ensure_account c [] = ground arith
points_of-ensure_account c (a ∷ rest) = ground (arith, points_of-ensure_account c rest)

redeem_points-points :
    (sale c requested : ℕ) (st : State) {st' : State} (n : ℕ)
    → points_of c st.loyalty ≡ some n
    → redeem_points sale c requested st ≡ ok st'
    → (requested ≤ n) × (points_of c st'.loyalty ≡ some (n - requested))
unfolding redeem_points
redeem_points-points sale c requested st {st'} n has e =
    ground (arith, points_of-change_points c (λ k. k - requested) st.loyalty)

award_points-points :
    (sale c earned : ℕ) (st : State) (n : ℕ)
    → points_of c st.loyalty ≡ some n
    → points_of c (award_points sale c earned st).loyalty ≡ some (n + earned)
unfolding award_points
award_points-points sale c earned st n has =
    ground (arith, points_of-change_points c (λ k. k + earned) st.loyalty)

redeemed-points :
    (sale c requested : ℕ) (wanted : Bool) (st : State) {st' : State} (n : ℕ)
    → wanted ≡ ltb 0 requested
    → points_of c st.loyalty ≡ some n
    → (if wanted then redeem_points sale c requested st else ok st) ≡ ok st'
    → (requested ≤ n) × (points_of c st'.loyalty ≡ some (n - requested))
redeemed-points sale c requested true st n w has e =
    redeem_points-points sale c requested st n has e
redeemed-points sale c requested false st n w has e =
    let none_asked : requested ≡ 0 = ground arith in
    let same = ap (λ (x : State). points_of c x.loyalty) (ok-injective e) in
    (omega arith, sym same ∙ has ∙ ap some (omega arith))

-- The loyalty statements of a sale to a registered customer.
pub update_loyalty-points :
    (sale : ℕ) (rule : Option LoyaltyRule) (dto : SaleRequest) (payable c : ℕ) (st : State)
    {st' : State}
    → update_loyalty sale rule dto payable (some c) st ≡ ok st'
    → let had = points_or_zero c st.loyalty in
      (dto.loyalty_points ≤ had)
      × (points_of c st'.loyalty ≡ some (had - dto.loyalty_points + earned_points rule payable))
unfolding update_loyalty
update_loyalty-points sale rule dto payable c st e =
    let ready = record st { loyalty = ensure_account c st.loyalty } in
    let wanted = ltb 0 dto.loyalty_points in
    let (r, redeemed, e1) =
      >>=-eq-ok (if wanted then redeem_points sale c dto.loyalty_points ready else ok ready) _ e in
    let had = points_or_zero c st.loyalty in
    let (enough, left) =
      redeemed-points sale c dto.loyalty_points wanted ready had refl
        (points_of-ensure_account c st.loyalty) redeemed in
    let earned = earned_points rule payable in
    (
      enough,
      ap (λ (x : State). points_of c x.loyalty) (sym (ok-injective e1))
          ∙ award_points-points sale c earned r (had - dto.loyalty_points) left,
    )

-- The loop over the lines touches no account and no agreement.
pub record IsFramed (st st' : State) : Type 0 where
  pub loyalty : st'.loyalty ≡ st.loyalty
  pub sales : st'.sales ≡ st.sales
  pub agreements : st'.agreements ≡ st.agreements
  pub payments : st'.payments ≡ st.payments

pub sell_lines-IsFramed :
    (actor : User) (now : Moment) (sale : ℕ) (dto : SaleRequest) (place : ℕ)
    (rows : List PreparedLine) (st : State) {st' : State}
    → sell_lines actor now sale dto place rows st ≡ ok st'
    → IsFramed st st'
unfolding sell_lines sell_line
sell_lines-IsFramed actor now sale dto place [] st e = record {
  loyalty = ap (λ (x : State). x.loyalty) (sym (ok-injective e));
  sales = ap (λ (x : State). x.sales) (sym (ok-injective e));
  agreements = ap (λ (x : State). x.agreements) (sym (ok-injective e));
  payments = ap (λ (x : State). x.payments) (sym (ok-injective e));
}
sell_lines-IsFramed actor now sale dto place (row ∷ rows) st e =
    let (mid, first, rest) = >>=-eq-ok (sell_line actor now sale dto place row st) _ e in
    let (sold, is_sold, e1) = >>=-eq-ok (sell_stock actor dto.branch sale row st.stock) _ first in
    let framed = sell_lines-IsFramed actor now sale dto (suc place) rows mid rest in
    record {
      sales = framed.sales ∙ ap (λ (x : State). x.sales) (sym (ok-injective e1));
      loyalty = framed.loyalty ∙ ap (λ (x : State). x.loyalty) (sym (ok-injective e1));
      agreements = framed.agreements ∙ ap (λ (x : State). x.agreements) (sym (ok-injective e1));
      payments = framed.payments ∙ ap (λ (x : State). x.payments) (sym (ok-injective e1));
    }

-- What has to be spent for one award by the rule, and how many points that gives; without a rule,
-- fifty for each 1000.00.
abbrev pub spend_for : Option LoyaltyRule → ℕ
spend_for none = 100000
spend_for (some r) = r.spend_amount

abbrev pub award_for : Option LoyaltyRule → ℕ
award_for none = 50
award_for (some r) = r.points_awarded

-- One award for every full amount spent, and nothing by a rule without such an amount.
abbrev pub IsEarned : Option LoyaltyRule → ℕ → ℕ → Type 0
IsEarned rule payable n =
    ((spend_for rule ≡ 0) × (n ≡ 0))
    ⊎ ((awards : ℕ) × (0 < spend_for rule)
        × (awards * cents (spend_for rule) ≤ payable)
        × (payable < (awards + 1) * cents (spend_for rule))
        × (n ≡ awards * award_for rule))

quotient-IsFull :
    (payable divisor : ℕ)
    → 0 < divisor
    → (payable / divisor * divisor ≤ payable) × (payable < (payable / divisor + 1) * divisor)
quotient-IsFull payable divisor h =
    (div-mul-le_self payable divisor, omega (arith, lt-div-mul-add {a = payable} {b = divisor} h))

earned_points-IsEarned :
    (rule : Option LoyaltyRule) (payable : ℕ) → IsEarned rule payable (earned_points rule payable)
unfolding earned_points
earned_points-IsEarned none payable =
    inr (payable / cents 100000, omega arith, omega arith, omega arith, refl)
earned_points-IsEarned (some r) payable = elim (Bool-cases (ltb 0 r.spend_amount)) [
  | inl spends ↦
      (let spend = ltb→lt 0 r.spend_amount spends in
        let (below, above) =
          quotient-IsFull payable (cents r.spend_amount) (omega (arith, spend)) in
        inr (payable / cents r.spend_amount, spend, below, above, rw spends refl))
  | inr never ↦ inl (ground (arith, never), rw never refl)
]

-- A completed sale to a registered customer: the customer had the points that were redeemed, and
-- now has the rest of them and those earned on the amount that was to be paid after redemption: by
-- the active rule of the cashier's organization, one award for every full amount that it names.
pub create-points :
    (shop : Shop) (now : Moment) (sale : ℕ) (actor : User) (dto : SaleRequest) (c : ℕ) (st : State)
    {st' : State}
    → dto.customer ≡ some c
    → create shop now sale actor dto st ≡ ok st'
    → (org : ℕ) × (rows : List PreparedLine) × (s : Settlement) × (earned : ℕ) × (organization_id
          shop.directory actor.id
        ≡ ok org)
      × (prepare_sale shop now actor dto st ≡ ok (rows, s))
      × IsEarned (active_loyalty_rule shop org) s.payable earned
      × (dto.loyalty_points ≤ points_or_zero c st.loyalty)
      × (points_of c st'.loyalty ≡ some (points_or_zero c st.loyalty - dto.loyalty_points + earned))
unfolding create checkout
create-points shop now sale actor dto c st {st'} is_c e =
    let (prepared, is_prepared, e1) = >>=-eq-ok (prepare_sale shop now actor dto st) _ e in
    let (org, known, e2) = >>=-eq-ok (organization_id shop.directory actor.id) _ e1 in
    let (rows, s) = prepared in
    let entered = record st { sales = sale_row sale now actor dto s ∷ st.sales } in
    let (sold, is_sold, e3) = >>=-eq-ok (sell_lines actor now sale dto 0 rows entered) _ e2 in
    let settled = settle_sale sale now dto s sold in
    let rule = active_loyalty_rule shop org in
    let (done, is_done, e4) =
      >>=-eq-ok (update_loyalty sale rule dto s.payable dto.customer settled) _ e3 in
    let same =
      (settle_sale-frame sale now dto s sold).loyalty
      ∙ (sell_lines-IsFramed actor now sale dto 0 rows entered is_sold).loyalty in
    let (enough, points) =
      update_loyalty-points sale rule dto s.payable c settled
        (subst (λ x. update_loyalty sale rule dto s.payable x settled ≡ ok done) is_c is_done) in
    (
      org,
      rows,
      s,
      earned_points rule s.payable,
      known,
      is_prepared,
      earned_points-IsEarned rule s.payable,
      subst (λ l. dto.loyalty_points ≤ points_or_zero c l) same enough,
      ap (λ (x : State). points_of c x.loyalty) (sym (ok-injective e4))
          ∙ subst
              (λ l.
                points_of c done.loyalty
                ≡ some (points_or_zero c l - dto.loyalty_points + earned_points rule s.payable))
              same points,
    )

-- A completed sale is one new row of the sales, in front of the others.
pub create-sales :
    (shop : Shop) (now : Moment) (sale : ℕ) (actor : User) (dto : SaleRequest) (st : State)
    {st' : State}
    → create shop now sale actor dto st ≡ ok st'
    → (row : Sale) × (row.id ≡ sale) × (st'.sales ≡ row ∷ st.sales)
unfolding create checkout
create-sales shop now sale actor dto st {st'} e =
    let (prepared, is_prepared, e1) = >>=-eq-ok (prepare_sale shop now actor dto st) _ e in
    let (org, known, e2) = >>=-eq-ok (organization_id shop.directory actor.id) _ e1 in
    let (rows, s) = prepared in
    let row = sale_row sale now actor dto s in
    let entered = record st { sales = row ∷ st.sales } in
    let (sold, is_sold, e3) = >>=-eq-ok (sell_lines actor now sale dto 0 rows entered) _ e2 in
    let settled = settle_sale sale now dto s sold in
    let rule = active_loyalty_rule shop org in
    let (done, is_done, e4) =
      >>=-eq-ok (update_loyalty sale rule dto s.payable dto.customer settled) _ e3 in
    (
      row,
      refl,
      ap (λ (x : State). x.sales) (sym (ok-injective e4))
          ∙ (update_loyalty-frame sale rule dto s.payable dto.customer settled is_done).sales
          ∙ (settle_sale-frame sale now dto s sold).sales
          ∙ (sell_lines-IsFramed actor now sale dto 0 rows entered is_sold).sales,
    )
