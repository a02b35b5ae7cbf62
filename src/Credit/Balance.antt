-- ===== src/Credit/Balance.antt =====
-- What the loop of `repay` does to the sums, and the balance of an agreement against what its
-- installments still owe.
use technova_pos_api.Prelude.{
  ℕ, ◌==◌, ◌-◌, ◌≤◌, ◌≡◌, refl, sym, inl, inr, Bool-cases, min, List, [], ◌∷◌, sum_of, All, arith,
}
use technova_pos_api.Credit.State.{Agreement, Installment, owed}
use technova_pos_api.Credit.Overdue.{late_installments, late_agreement}
use technova_pos_api.Credit.Allocate.{pay_installment, allocate}
use technova_pos_api.Credit.Repay.{repaid_agreement}
use technova_pos_api.Credit.Shares.{
  amount_paid-pay_installment, allocate-nothing, allocate-skip, allocate-pay,
}

abbrev pub total_owed : List Installment → ℕ
total_owed = sum_of owed

abbrev pub IsWithin : Installment → Type 0
IsWithin i = i.amount_paid ≤ i.amount_due

amount_due-pay_installment :
    (now allocated : ℕ) (i : Installment)
    → (pay_installment now allocated i).amount_due ≡ i.amount_due
unfolding pay_installment
amount_due-pay_installment now allocated i = refl

module _ (now agreement payment : ℕ) where
  -- The installments owe less by the payment, down to nothing.
  pub total_owed-allocate :
      (remaining : ℕ) (is : List Installment)
      → total_owed (allocate now agreement payment remaining is).0 ≡ total_owed is - remaining
  total_owed-allocate remaining [] = unfold allocate in omega arith
  total_owed-allocate remaining (i ∷ is) = elim (Bool-cases (remaining == 0)) [
    | inl z ↦ rw (allocate-nothing now agreement payment remaining (i ∷ is) z) (ground arith)
    | inr z ↦ elim (Bool-cases (owed i == 0)) [
      | inl s ↦
          rw (allocate-skip now agreement payment remaining i is z s)
            (ground (arith, total_owed-allocate remaining is))
      | inr s ↦
          let share = min remaining (owed i) in
          rw (allocate-pay now agreement payment remaining i is z s) (
            omega (
              arith,
              amount_paid-pay_installment now share i,
              amount_due-pay_installment now share i,
              total_owed-allocate (remaining - share) is,
            ))
    ]
  ]

  -- The allocations add up to the payment, or to all that was owed if that is less.
  pub sum_of-allocate :
      (remaining : ℕ) (is : List Installment)
      → sum_of (λ a. a.amount) (allocate now agreement payment remaining is).1
        ≡ min remaining (total_owed is)
  sum_of-allocate remaining [] = unfold allocate in omega arith
  sum_of-allocate remaining (i ∷ is) = elim (Bool-cases (remaining == 0)) [
    | inl z ↦ rw (allocate-nothing now agreement payment remaining (i ∷ is) z) (ground arith)
    | inr z ↦ elim (Bool-cases (owed i == 0)) [
      | inl s ↦
          rw (allocate-skip now agreement payment remaining i is z s)
            (ground (arith, sum_of-allocate remaining is))
      | inr s ↦
          rw (allocate-pay now agreement payment remaining i is z s)
            (omega (arith, sum_of-allocate (remaining - min remaining (owed i)) is))
    ]
  ]

  -- No installment is paid beyond what is due.
  pub allocate-IsWithin :
      (remaining : ℕ) (is : List Installment)
      → All IsWithin is
      → All IsWithin (allocate now agreement payment remaining is).0
  allocate-IsWithin remaining [] h = unfold allocate in tt
  allocate-IsWithin remaining (i ∷ is) h = elim (Bool-cases (remaining == 0)) [
    | inl z ↦ rw (allocate-nothing now agreement payment remaining (i ∷ is) z) h
    | inr z ↦ elim (Bool-cases (owed i == 0)) [
      | inl s ↦
          rw (allocate-skip now agreement payment remaining i is z s)
            (h.0, allocate-IsWithin remaining is h.1)
      | inr s ↦
          let share = min remaining (owed i) in
          rw (allocate-pay now agreement payment remaining i is z s) (
            omega (
              arith,
              h.0,
              amount_paid-pay_installment now share i,
              amount_due-pay_installment now share i,
            ),
            allocate-IsWithin (remaining - share) is h.1,
          )
    ]
  ]

-- An agreement whose balance is what its installments still owe, none of them overpaid.
pub record IsBalanced (a : Agreement) : Type 0 where
  pub balance : a.outstanding ≡ total_owed a.installments
  pub within : All IsWithin a.installments

late_installments-same :
    (now : ℕ) (is : List Installment)
    → All IsWithin is
    → (total_owed (late_installments now is) ≡ total_owed is)
      × All IsWithin (late_installments now is)
late_installments-same now [] h = (refl, tt)
late_installments-same now (i ∷ is) h = ground (arith, late_installments-same now is h.1)

pub late_agreement-IsBalanced :
    (now : ℕ) (a : Agreement) → IsBalanced a → IsBalanced (late_agreement now a)
late_agreement-IsBalanced now a h =
    ground (arith, late_installments-same now a.installments h.within)

pub repaid_agreement-IsBalanced :
    (now payment amount : ℕ) (a : Agreement)
    → IsBalanced a
    → IsBalanced (repaid_agreement now payment amount a)
repaid_agreement-IsBalanced now payment amount a h = record {
  balance = rw (h.balance) (sym (total_owed-allocate now a.id payment amount a.installments));
  within = allocate-IsWithin now a.id payment amount a.installments h.within;
}
