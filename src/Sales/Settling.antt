-- ===== src/Sales/Settling.antt =====
-- The statements behind the loop of `SalesService.create`: payments, store credit, the credit
-- agreement and the loyalty points.
use technova_pos_api.Prelude.{
  ℕ, suc, ◌+◌, ◌-◌, ◌*◌, ◌/◌, Option, none, some, List, [], ◌∷◌, ◌==◌, ltb, leb, if◌then◌else◌,
  update_many,
}
use technova_pos_api.Prelude.Int.{pos, sub_ℕ}
use technova_pos_api.Prelude.Result.{Result, ok, err, ◌>>=◌, conflict, lit}
use technova_pos_api.Calendar.{Moment}
use technova_pos_api.Payment.{PaymentStatus}
use technova_pos_api.Credit.State.{CreditStatus}
use technova_pos_api.Sales.Pricing.{cents}
use technova_pos_api.Sales.State.{
  State, LoyaltyRule, SaleRequest, SalePayment, PaymentRow, StoreCreditAccount, LoyaltyAccount,
  CreditTerms, CreditInstallmentInput,
}
use technova_pos_api.Sales.Customers.{points_of}

-- `payment.createMany`
abbrev pub payment_row : ℕ → Moment → SalePayment → PaymentRow
payment_row sale now p = record {
  sale = sale;
  method = p.method;
  status = PaymentStatus.completed;
  amount = p.amount;
  paid_at = now.ms;
}

abbrev pub sub_balance : ℕ → ℕ → List StoreCreditAccount → List StoreCreditAccount
sub_balance c amount =
    update_many (λ a. a.customer == c) (λ a. record a { balance = a.balance - amount })

-- `storeCreditAccount.update` with its transaction row.
unfoldable pub spend_store_credit : ℕ → Option ℕ → ℕ → State → State
spend_store_credit sale none amount st = st
spend_store_credit sale (some c) amount st =
    if ltb 0 amount
    then (record st {
      store_credit = sub_balance c amount st.store_credit;
      store_credit_entries =
          record { customer = c; amount = sub_ℕ 0 amount; sale = sale } ∷ st.store_credit_entries;
    })
    else st

abbrev pub number_installments : ℕ → List CreditInstallmentInput → List (ℕ × ℕ × ℕ)
number_installments n [] = []
number_installments n (i ∷ rest) =
    (n, cents i.amount, i.due_date) ∷ number_installments (suc n) rest

-- The given installments, or one of the whole balance on the due date.
abbrev pub installments_of : CreditTerms → ℕ → List (ℕ × ℕ × ℕ)
installments_of terms balance = elim terms.installments [
  | none ↦ (1, balance, terms.due_date) ∷ []
  | some is ↦ number_installments 1 is
]

-- `creditAgreement.create`
unfoldable pub open_agreement : ℕ → Option ℕ → Option CreditTerms → ℕ → State → State
open_agreement sale (some c) (some terms) balance st = record st {
  agreements =
      record {
        sale = sale;
        customer = c;
        principal = balance;
        outstanding = balance;
        due_date = terms.due_date;
        status = CreditStatus.active;
        installments = installments_of terms balance;
      }
      ∷ st.agreements;
}
open_agreement sale _ _ balance st = st

-- `loyaltyAccount.upsert` that only makes sure of the account.
abbrev pub ensure_account : ℕ → List LoyaltyAccount → List LoyaltyAccount
ensure_account c [] = record { customer = c; points = 0 } ∷ []
ensure_account c (a ∷ rest) = if a.customer == c then a ∷ rest else a ∷ ensure_account c rest

abbrev pub change_points : ℕ → (ℕ → ℕ) → List LoyaltyAccount → List LoyaltyAccount
change_points c f = update_many (λ a. a.customer == c) (λ a. record a { points = f a.points })

-- `updateMany` where `points >= requested`, with the decrement; a count of 0 is refused.
unfoldable pub redeem_points : ℕ → ℕ → ℕ → State → Result State
redeem_points sale c requested st = elim (points_of c st.loyalty) [
  | none ↦ err (conflict (lit "The customer no longer has enough loyalty points."))
  | some points ↦
      if leb requested points
      then ok (record st {
        loyalty = change_points c (λ n. n - requested) st.loyalty;
        loyalty_entries =
            record { customer = c; amount = sub_ℕ 0 requested; sale = sale } ∷ st.loyalty_entries;
      })
      else err (conflict (lit "The customer no longer has enough loyalty points."))
]

-- `spendAmount`, `pointsAwarded` with their defaults, and `earnedPoints`.
unfoldable pub earned_points : Option LoyaltyRule → ℕ → ℕ
earned_points none payable = payable / cents (1000 * 100) * 50
earned_points (some r) payable =
    if ltb 0 r.spend_amount then payable / cents r.spend_amount * r.points_awarded else 0

unfoldable pub award_points : ℕ → ℕ → ℕ → State → State
award_points sale c earned st =
    if ltb 0 earned
    then (record st {
      loyalty = change_points c (λ n. n + earned) st.loyalty;
      loyalty_entries =
          record { customer = c; amount = pos earned; sale = sale } ∷ st.loyalty_entries;
    })
    else st

-- The loyalty statements, for a registered customer.
unfoldable pub update_loyalty :
    ℕ → Option LoyaltyRule → SaleRequest → ℕ → Option ℕ → State → Result State
update_loyalty sale rule dto payable none st = ok st
update_loyalty sale rule dto payable (some c) st = do
  let ready = record st { loyalty = ensure_account c st.loyalty }
  redeemed ←
      if ltb 0 dto.loyalty_points then redeem_points sale c dto.loyalty_points ready else ok ready
  ok (award_points sale c (earned_points rule payable) redeemed)
