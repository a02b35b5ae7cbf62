-- ===== src/Credit/Repay.antt =====
-- `CreditService.detail` and `CreditService.repay`.
use technova_pos_api.Prelude.{
  ℕ, ◌+◌, ◌-◌, Bool, true, false, ◌&&◌, not, ◌∷◌, ◌++◌, ◌==◌, ltb, leb, if◌then◌else◌, find,
  update_many,
}
use technova_pos_api.Prelude.Int.{pos, ◌+ℤ◌}
use technova_pos_api.Prelude.Result.{
  Result, ok, err, bad_request, or_raise, not_found, conflict, lit,
}
use technova_pos_api.Payment.{PaymentMethod, PaymentStatus, is_credit}
use technova_pos_api.Directory.{Directory, User, organization_id}
use technova_pos_api.Credit.State.{State, Agreement, CreditStatus, SaleBalance}
use technova_pos_api.Credit.Overdue.{mark_overdue}
use technova_pos_api.Credit.Allocate.{allocate}

-- `CreditRepaymentDto`
pub record Repayment : Type 0 where
  pub amount : ℕ
  pub method : PaymentMethod

-- What `repay` returns.
pub record Receipt : Type 0 where
  pub payment : ℕ
  pub outstanding : ℕ
  pub status : CreditStatus

abbrev pub accepts_payments : CreditStatus → Bool
accepts_payments CreditStatus.active = true
accepts_payments CreditStatus.overdue = true
accepts_payments _ = false

-- `detail`: the overdue rows are marked before the agreement is looked up. An exception does not
-- undo what was written before it outside of a transaction, so the state comes back either way.
unfoldable pub look_up : ℕ → ℕ → Result ℕ → State → Result Agreement × State
look_up now id (err e) st = (err e, st)
look_up now id (ok org) st =
    let marked = mark_overdue now org st in
    (
      or_raise (find (λ a. a.id == id && a.organization == org) marked.agreements)
          (not_found (lit "Credit agreement not found.")),
      marked,
    )

unfoldable pub detail : Directory → ℕ → User → ℕ → State → Result Agreement × State
detail dir now actor id st = look_up now id (organization_id dir actor.id) st

-- `Math.max(0, outstanding)` after the payment, and the status that goes with it.
abbrev pub left_over : Agreement → ℕ → ℕ
left_over a amount = a.outstanding - amount

abbrev pub status_after : ℕ → Agreement → ℕ → CreditStatus
status_after now a amount =
    if leb (left_over a amount) 10
    then CreditStatus.paid
    else if ltb a.due_date now
    then CreditStatus.overdue
    else CreditStatus.active

abbrev pub repaid_agreement : ℕ → ℕ → ℕ → Agreement → Agreement
repaid_agreement now payment amount a = record a {
  installments = (allocate now a.id payment amount a.installments).0;
  outstanding = left_over a amount;
  status = status_after now a amount;
}

abbrev pub repaid_sale : Agreement → ℕ → SaleBalance → SaleBalance
repaid_sale a amount s = record s {
  paid_total = s.paid_total +ℤ pos amount;
  balance_due = pos (left_over a amount);
}

-- The transaction, on the agreement `a` as `detail` read it.
unfoldable pub apply_payment : ℕ → ℕ → Repayment → Agreement → State → State
apply_payment now payment dto a st = record st {
  payments =
      record {
        id = payment;
        method = dto.method;
        status = PaymentStatus.completed;
        amount = dto.amount;
        paid_at = now;
      }
      ∷ st.payments;
  agreements =
      update_many (λ x. x.id == a.id) (λ _. repaid_agreement now payment dto.amount a)
        st.agreements;
  allocations = (allocate now a.id payment dto.amount a.installments).1 ++ st.allocations;
  sales = update_many (λ s. s.id == a.sale) (repaid_sale a dto.amount) st.sales;
}

-- The guards on the agreement, the transaction, and the audit entry.
unfoldable pub settle :
    ℕ → ℕ → User → ℕ → Repayment → Result Agreement → State → Result Receipt × State
settle now payment actor id dto (err e) st = (err e, st)
settle now payment actor id dto (ok a) st =
    if not (accepts_payments a.status)
    then (err (conflict (lit "This credit agreement does not accept payments.")), st)
    else if ltb (a.outstanding + 10) dto.amount
    then (err (bad_request (lit "Payment exceeds the outstanding balance.")), st)
    else (let paid = apply_payment now payment dto a st in
        (
          ok (record {
            payment = payment;
            outstanding = left_over a dto.amount;
            status = status_after now a dto.amount;
          }),
          record paid {
            audits =
                record { user = actor.id; action = "CREDIT_PAYMENT_RECEIVED"; subject = id }
                ∷ paid.audits;
          },
        ))

-- `payment` is the id that the database gives the payment.
unfoldable pub repay : Directory → ℕ → ℕ → User → ℕ → Repayment → State → Result Receipt × State
repay dir now payment actor id dto st =
    if is_credit dto.method
    then (err (bad_request (lit "Credit cannot be used to repay credit.")), st)
    else (let (read, marked) = detail dir now actor id st in
        settle now payment actor id dto read marked)
