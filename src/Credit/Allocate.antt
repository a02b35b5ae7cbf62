-- ===== src/Credit/Allocate.antt =====
-- The loop of `CreditService.repay` that spreads a payment over the installments.
use technova_pos_api.Prelude.{
  ℕ, ◌+◌, ◌-◌, min, none, some, Bool, List, [], ◌∷◌, ◌==◌, ltb, leb, if◌then◌else◌,
}
use technova_pos_api.Credit.State.{Installment, InstallmentStatus, Allocation, owed}

-- `newPaid + 0.001 >= amountDue`
abbrev pub settles : ℕ → Installment → Bool
settles new_paid i = leb i.amount_due (new_paid + 1)

unfoldable pub pay_installment : ℕ → ℕ → Installment → Installment
pay_installment now allocated i =
    let new_paid = i.amount_paid + allocated in
    record i {
      amount_paid = new_paid;
      status =
          if settles new_paid i
          then InstallmentStatus.paid
          else if ltb i.due_date now
          then InstallmentStatus.overdue
          else InstallmentStatus.partially_paid;
      paid_at = if settles new_paid i then some now else none;
    }

-- `break` once nothing remains, `continue` where nothing is owed. The result is the installments
-- and the allocations, in the order in which they are made.
unfoldable pub allocate : ℕ → ℕ → ℕ → ℕ → List Installment → List Installment × List Allocation
allocate now agreement payment remaining [] = ([], [])
allocate now agreement payment remaining (i ∷ is) =
    let allocated = min remaining (owed i) in
    let (skipped, skipped_log) = allocate now agreement payment remaining is in
    let (rest, log) = allocate now agreement payment (remaining - allocated) is in
    if remaining == 0 then (i ∷ is, []) else if owed i == 0 then (i ∷ skipped, skipped_log) else (
      pay_installment now allocated i ∷ rest,
      record { agreement = agreement; installment = i.id; payment = payment; amount = allocated }
          ∷ log,
    )
