-- ===== src/Credit/Preserve.antt =====
-- The balances of the agreements under `CreditService.repay` and `markOverdue`.
use technova_pos_api.Prelude.{
  Bool-cases, ltb, ℕ, ◌==◌, ◌+◌, ◌≡◌, refl, inl, inr, All, All-find, All-update_many, ◌&&◌,
}
use technova_pos_api.Prelude.Result.{or_raise-ok, Result, ok, err}
use technova_pos_api.Directory.{Directory, User, organization_id}
use technova_pos_api.Credit.State.{State, Agreement}
use technova_pos_api.Credit.Overdue.{late_agreement, mark_overdue}
use technova_pos_api.Credit.Repay.{
  Repayment, detail, apply_payment, repay, settle, look_up, repaid_agreement, accepts_payments,
}
use technova_pos_api.Credit.Balance.{
  IsBalanced, late_agreement-IsBalanced, repaid_agreement-IsBalanced,
}
use technova_pos_api.Payment.{is_credit}

abbrev pub AllBalanced : State → Type 0
AllBalanced st = All IsBalanced st.agreements

mark_overdue-AllBalanced :
    (now org : ℕ) (st : State) → AllBalanced st → AllBalanced (mark_overdue now org st)
unfolding mark_overdue
mark_overdue-AllBalanced now org st h =
    All-update_many IsBalanced (λ a. a.organization == org) (late_agreement now)
      (late_agreement-IsBalanced now) st.agreements h

-- Reading an agreement keeps the balances, and what is read is balanced.
look_up-AllBalanced :
    (now id : ℕ) (org : Result ℕ) (st : State)
    → AllBalanced st
    → AllBalanced (look_up now id org st).1
      × ((a : Agreement) → (look_up now id org st).0 ≡ ok a → IsBalanced a)
unfolding look_up
look_up-AllBalanced now id (err e) st h = (h, λ a same. cc)
look_up-AllBalanced now id (ok org) st h =
    let marked = mark_overdue now org st in
    let kept = mark_overdue-AllBalanced now org st h in
    let test = λ (a : Agreement). a.id == id && a.organization == org in
    (kept, λ a same. All-find IsBalanced test marked.agreements (or_raise-ok _ _ same) kept)

apply_payment-AllBalanced :
    (now payment : ℕ) (dto : Repayment) (a : Agreement) (st : State)
    → IsBalanced a
    → AllBalanced st
    → AllBalanced (apply_payment now payment dto a st)
unfolding apply_payment
apply_payment-AllBalanced now payment dto a st balanced h =
    All-update_many IsBalanced (λ x. x.id == a.id) (λ _. repaid_agreement now payment dto.amount a)
      (λ _ _. repaid_agreement-IsBalanced now payment dto.amount a balanced) st.agreements h

settle-AllBalanced :
    (now payment : ℕ) (actor : User) (id : ℕ) (dto : Repayment) (read : Result Agreement)
    (st : State)
    → AllBalanced st
    → ((a : Agreement) → read ≡ ok a → IsBalanced a)
    → AllBalanced (settle now payment actor id dto read st).1
unfolding settle
settle-AllBalanced now payment actor id dto (err e) st h balanced = h
settle-AllBalanced now payment actor id dto (ok a) st h balanced =
    let paid = apply_payment-AllBalanced now payment dto a st (balanced a refl) h in
    elim (Bool-cases (accepts_payments a.status)) [
      | inl accepting ↦ elim (Bool-cases (ltb (a.outstanding + 10) dto.amount)) [
        | inl too_much ↦ rw (accepting, too_much) h
        | inr fitting ↦ rw (accepting, fitting) paid
      ]
      | inr refusing ↦ rw refusing h
    ]

-- However a repayment ends, every agreement's outstanding balance is still exactly what its
-- installments owe, and no installment is paid beyond what is due, if so it was before.
pub repay-AllBalanced :
    (dir : Directory) (now payment : ℕ) (actor : User) (id : ℕ) (dto : Repayment) (st : State)
    → AllBalanced st
    → AllBalanced (repay dir now payment actor id dto st).1
unfolding repay detail
repay-AllBalanced dir now payment actor id dto st h =
    let (kept, balanced) = look_up-AllBalanced now id (organization_id dir actor.id) st h in
    let (read, marked) = look_up now id (organization_id dir actor.id) st in
    elim (Bool-cases (is_credit dto.method)) [
      | inl credit ↦ rw credit h
      | inr plain ↦ rw plain (settle-AllBalanced now payment actor id dto read marked kept balanced)
    ]
