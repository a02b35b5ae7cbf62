-- ===== src/Credit/Shares.antt =====
-- The closed form of the loop of `CreditService.repay`: in order, each installment takes what it
-- owes of what the installments before it have left over.
use technova_pos_api.Prelude.{
  ◌==◌, ℕ, ◌+◌, ◌-◌, ◌≡◌, refl, sym, inl, inr, Bool-cases, true, false, min, List, [], ◌∷◌, map,
  arith,
}
use technova_pos_api.Credit.State.{Installment, owed}
use technova_pos_api.Credit.Allocate.{pay_installment, allocate}

-- The share of each installment in a payment.
abbrev pub shares : ℕ → List ℕ → List ℕ
shares amount [] = []
shares amount (o ∷ os) = min amount o ∷ shares (amount - o) os

abbrev pub add_each : List ℕ → List ℕ → List ℕ
add_each (x ∷ xs) (y ∷ ys) = (x + y) ∷ add_each xs ys
add_each _ _ = []

add_each-nothing :
    (is : List Installment)
    → add_each (map (λ i. i.amount_paid) is) (shares 0 (map owed is)) ≡ map (λ i. i.amount_paid) is
add_each-nothing [] = refl
add_each-nothing (i ∷ is) = ground (arith, add_each-nothing is)

pub amount_paid-pay_installment :
    (now allocated : ℕ) (i : Installment)
    → (pay_installment now allocated i).amount_paid ≡ i.amount_paid + allocated
unfolding pay_installment
amount_paid-pay_installment now allocated i = refl

module _ (now agreement payment : ℕ) where
  pub allocate-nothing :
      (remaining : ℕ) (is : List Installment)
      → (remaining == 0) ≡ true
      → allocate now agreement payment remaining is ≡ (is, [])
  unfolding allocate
  allocate-nothing remaining [] z = refl
  allocate-nothing remaining (i ∷ is) z = rw z

  pub allocate-skip :
      (remaining : ℕ) (i : Installment) (is : List Installment)
      → (remaining == 0) ≡ false
      → (owed i == 0) ≡ true
      → allocate now agreement payment remaining (i ∷ is)
        ≡ (let (rest, log) = allocate now agreement payment remaining is in (i ∷ rest, log))
  unfolding allocate
  allocate-skip remaining i is z s = rw (z, s)

  pub allocate-pay :
      (remaining : ℕ) (i : Installment) (is : List Installment)
      → (remaining == 0) ≡ false
      → (owed i == 0) ≡ false
      → let share = min remaining (owed i) in
        allocate now agreement payment remaining (i ∷ is) ≡ (
          let (rest, log) = allocate now agreement payment (remaining - share) is in
          (
            pay_installment now share i ∷ rest,
            record { agreement = agreement; installment = i.id; payment = payment; amount = share }
                ∷ log,
          ))
  unfolding allocate
  allocate-pay remaining i is z s = rw (z, s)

  -- The loop, with its `break` and `continue`, adds to the paid amounts just the shares.
  pub allocate-shares :
      (remaining : ℕ) (is : List Installment)
      → map (λ i. i.amount_paid) (allocate now agreement payment remaining is).0
        ≡ add_each (map (λ i. i.amount_paid) is) (shares remaining (map owed is))
  allocate-shares remaining [] = unfold allocate in refl
  allocate-shares remaining (i ∷ is) = elim (Bool-cases (remaining == 0)) [
    | inl z ↦
        let e : remaining ≡ 0 = ground arith in
        rw (allocate-nothing remaining (i ∷ is) z, e) (sym (add_each-nothing (i ∷ is)))
    | inr z ↦ elim (Bool-cases (owed i == 0)) [
      | inl s ↦ rw (allocate-skip remaining i is z s) (ground (arith, allocate-shares remaining is))
      | inr s ↦ rw (allocate-pay remaining i is z s) (
          ground (
            arith,
            amount_paid-pay_installment now (min remaining (owed i)) i,
            allocate-shares (remaining - min remaining (owed i)) is,
          ))
    ]
  ]
