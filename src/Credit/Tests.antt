-- ===== src/Credit/Tests.antt =====
-- 60.00 on an agreement with two installments of 50.00, of which the first is late.
use technova_pos_api.Prelude.{
  arith, ℕ, ◌+◌, ◌-◌, ◌≤◌, ◌≡◌, refl, true, false, none, [], ◌∷◌, min, sum_of, map,
}
use technova_pos_api.Prelude.Int.{pos}
use technova_pos_api.Prelude.Result.{ok, err, lit, bad_request}
use technova_pos_api.Directory.{Directory, User, organization_id}
use technova_pos_api.Payment.{PaymentMethod}
use technova_pos_api.Credit.State.{State, Agreement, Installment, CreditStatus, InstallmentStatus}
use technova_pos_api.Credit.Overdue.{mark_overdue}
use technova_pos_api.Credit.Allocate.{allocate, pay_installment}
use technova_pos_api.Credit.Repay.{
  Repayment, Receipt, repay, detail, look_up, settle, apply_payment, accepts_payments,
}
use technova_pos_api.Credit.Balance.{total_owed}
use technova_pos_api.Credit.Shares.{shares, add_each, allocate-shares}
use technova_pos_api.Credit.Preserve.{AllBalanced, repay-AllBalanced}
use technova_pos_api.Credit.Outcome.{IsUnpaid, repay-IsUnpaid, repay-accepted}

abbrev directory : Directory
directory = record {
  members = record { user = 4; organization = 1 } ∷ [];
  branches = [];
  products = [];
}

abbrev clerk : User
clerk = record { id = 4; super_admin = false }

abbrev installment : ℕ → ℕ → Installment
installment id due = record {
  id = id;
  amount_due = 50000;
  amount_paid = 0;
  due_date = due;
  status = InstallmentStatus.pending;
  paid_at = none;
}

abbrev agreement : Agreement
agreement = record {
  id = 3;
  organization = 1;
  sale = 2;
  outstanding = 100000;
  due_date = 900;
  status = CreditStatus.active;
  installments = installment 1 400 ∷ installment 2 900 ∷ [];
}

abbrev before : State
before = record {
  agreements = agreement ∷ [];
  payments = [];
  allocations = [];
  sales = record { id = 2; paid_total = pos 0; balance_due = pos 100000 } ∷ [];
  audits = [];
}

before-AllBalanced : AllBalanced before
before-AllBalanced = (record { balance = refl; within = (omega arith, (omega arith, tt)) }, tt)

abbrev sixty : Repayment
sixty = record { amount = 60000; method = PaymentMethod.cash }

abbrev too_much : Repayment
too_much = record { amount = 200000; method = PaymentMethod.cash }

repay-AllBalanced_example : AllBalanced (repay directory 500 8 clerk 3 sixty before).1
repay-AllBalanced_example =
    repay-AllBalanced directory 500 8 clerk 3 sixty before before-AllBalanced

abbrev receipt : Receipt
receipt = record { payment = 8; outstanding = 40000; status = CreditStatus.active }

is_paid : (repay directory 500 8 clerk 3 sixty before).0 ≡ ok receipt
unfolding repay detail organization_id look_up mark_overdue settle apply_payment allocate
    pay_installment
is_paid = refl

-- The late installment is paid in full, the other one with the rest.
paid_amounts :
    map (λ (i : Installment). i.amount_paid) (allocate 500 3 8 60000 agreement.installments).0
    ≡ 50000 ∷ 10000 ∷ []
unfolding allocate pay_installment
paid_amounts = refl

repay-accepted_example :
    (a : Agreement) × ((detail directory 500 clerk 3 before).0 ≡ ok a)
    × (accepts_payments a.status ≡ true)
    × (60000 ≤ a.outstanding + 10)
    × (40000 ≡ a.outstanding - 60000)
    × (sum_of (λ x. x.amount) (repay directory 500 8 clerk 3 sixty before).1.allocations
        ≡ min 60000 (total_owed a.installments) + sum_of (λ x. x.amount) before.allocations)
repay-accepted_example =
    repay-accepted directory 500 8 clerk 3 sixty before {receipt = receipt} is_paid

is_refused :
    (repay directory 500 8 clerk 3 too_much before).0
    ≡ err (bad_request (lit "Payment exceeds the outstanding balance."))
unfolding repay detail organization_id look_up mark_overdue settle apply_payment allocate
    pay_installment
is_refused = refl

repay-IsUnpaid_example : IsUnpaid before (repay directory 500 8 clerk 3 too_much before).1
repay-IsUnpaid_example = repay-IsUnpaid directory 500 8 clerk 3 too_much before is_refused

allocate-shares_example :
    map (λ i. i.amount_paid) (allocate 500 3 8 60000 agreement.installments).0
    ≡ add_each (0 ∷ 0 ∷ []) (shares 60000 (50000 ∷ 50000 ∷ []))
allocate-shares_example = allocate-shares 500 3 8 60000 agreement.installments
