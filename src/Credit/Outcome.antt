-- ===== src/Credit/Outcome.antt =====
-- How a repayment ends: what it has written when it is refused, and when it is accepted.
use technova_pos_api.Prelude.{
  inr, inl, Bool-cases, ℕ, ◌+◌, ◌-◌, ◌≤◌, ◌≡◌, refl, true, ◌++◌, arith, sum_of, min, sum_of-append,
}
use technova_pos_api.Prelude.Result.{Result, Error, ok, err}
use technova_pos_api.Directory.{Directory, User, organization_id}
use technova_pos_api.Credit.State.{State, Agreement}
use technova_pos_api.Credit.Overdue.{mark_overdue}
use technova_pos_api.Credit.Allocate.{allocate}
use technova_pos_api.Credit.Repay.{
  Repayment, Receipt, detail, apply_payment, repay, look_up, settle, accepts_payments,
}
use technova_pos_api.Credit.Balance.{total_owed, sum_of-allocate}
use technova_pos_api.Payment.{is_credit}

-- No money has moved.
pub record IsUnpaid (before after : State) : Type 0 where
  pub payments : after.payments ≡ before.payments
  pub allocations : after.allocations ≡ before.allocations
  pub sales : after.sales ≡ before.sales
  pub audits : after.audits ≡ before.audits

look_up-IsUnpaid :
    (now id : ℕ) (org : Result ℕ) (st : State) → IsUnpaid st (look_up now id org st).1
unfolding look_up mark_overdue
look_up-IsUnpaid now id (err e) st = ground arith
look_up-IsUnpaid now id (ok org) st = ground arith

settle-IsUnpaid :
    (now payment : ℕ) (actor : User) (id : ℕ) (dto : Repayment) (read : Result Agreement)
    (st : State) {e : Error}
    → (settle now payment actor id dto read st).0 ≡ err e
    → (settle now payment actor id dto read st).1 ≡ st
unfolding settle
settle-IsUnpaid now payment actor id dto (err e) st h = refl
settle-IsUnpaid now payment actor id dto (ok a) st h = ground arith

-- A refused repayment moves no money: no payment, allocation, sale or audit row is written.
pub repay-IsUnpaid :
    (dir : Directory) (now payment : ℕ) (actor : User) (id : ℕ) (dto : Repayment) (st : State)
    {e : Error}
    → (repay dir now payment actor id dto st).0 ≡ err e
    → IsUnpaid st (repay dir now payment actor id dto st).1
unfolding repay detail
repay-IsUnpaid dir now payment actor id dto st h =
    let (read, marked) = look_up now id (organization_id dir actor.id) st in
    let same = look_up-IsUnpaid now id (organization_id dir actor.id) st in
    elim (Bool-cases (is_credit dto.method)) [
      | inl credit ↦
          rw credit (record { payments = refl; allocations = refl; sales = refl; audits = refl })
      | inr plain ↦
          rw (plain, settle-IsUnpaid now payment actor id dto read marked (rw plain at h)) same
    ]

settle-accepted :
    (now payment : ℕ) (actor : User) (id : ℕ) (dto : Repayment) (read : Result Agreement)
    (st : State) {receipt : Receipt}
    → (settle now payment actor id dto read st).0 ≡ ok receipt
    → (a : Agreement) × (read ≡ ok a)
      × (accepts_payments a.status ≡ true)
      × (dto.amount ≤ a.outstanding + 10)
      × (receipt.outstanding ≡ a.outstanding - dto.amount)
      × ((settle now payment actor id dto read st).1.allocations
          ≡ (allocate now a.id payment dto.amount a.installments).1 ++ st.allocations)
unfolding settle apply_payment
settle-accepted now payment actor id dto (err e) st h = cc
settle-accepted now payment actor id dto (ok a) st h =
    (a, refl, ground arith, ground arith, ground arith, ground arith)

-- An accepted repayment was made on an agreement that takes payments, for at most its outstanding
-- balance and a cent. The receipt shows the balance lowered by the amount, and the
-- new allocation rows add up to the amount, or to all that the installments owed if that is less.
pub repay-accepted :
    (dir : Directory) (now payment : ℕ) (actor : User) (id : ℕ) (dto : Repayment) (st : State)
    {receipt : Receipt}
    → (repay dir now payment actor id dto st).0 ≡ ok receipt
    → (a : Agreement) × ((detail dir now actor id st).0 ≡ ok a)
      × (accepts_payments a.status ≡ true)
      × (dto.amount ≤ a.outstanding + 10)
      × (receipt.outstanding ≡ a.outstanding - dto.amount)
      × (sum_of (λ x. x.amount) (repay dir now payment actor id dto st).1.allocations
          ≡ min dto.amount (total_owed a.installments) + sum_of (λ x. x.amount) st.allocations)
unfolding repay detail
repay-accepted dir now payment actor id dto st h =
    let (read, marked) = look_up now id (organization_id dir actor.id) st in
    let unpaid = look_up-IsUnpaid now id (organization_id dir actor.id) st in
    elim (Bool-cases (is_credit dto.method)) [
      | inl credit ↦ cc (rw credit at h)
      | inr plain ↦
          let (a, found, accepting, fits, left, rows) =
            settle-accepted now payment actor id dto read marked (rw plain at h) in
          let log = (allocate now a.id payment dto.amount a.installments).1 in
          (
            a,
            found,
            accepting,
            fits,
            left,
            rw
                (
                  plain,
                  rows,
                  sum_of-append,
                  sum_of-allocate now a.id payment dto.amount a.installments,
                  unpaid.allocations,
                )
                refl,
          )
    ]
