-- ===== src/Credit/Overdue.antt =====
-- `CreditService.markOverdue`: run before every read of an agreement.
use technova_pos_api.Prelude.{
  ℕ, Bool, true, false, ◌&&◌, List, [], ◌∷◌, ◌==◌, ltb, if◌then◌else◌, update_many,
}
use technova_pos_api.Credit.State.{State, Agreement, Installment, CreditStatus, InstallmentStatus}

-- `status: { in: [PENDING, PARTIALLY_PAID] }`
abbrev pub is_open : InstallmentStatus → Bool
is_open InstallmentStatus.pending = true
is_open InstallmentStatus.partially_paid = true
is_open _ = false

abbrev pub is_active : CreditStatus → Bool
is_active CreditStatus.active = true
is_active _ = false

abbrev pub late_installment : ℕ → Installment → Installment
late_installment now i =
    if ltb i.due_date now && is_open i.status
    then record i { status = InstallmentStatus.overdue }
    else i

abbrev pub late_installments : ℕ → List Installment → List Installment
late_installments now [] = []
late_installments now (i ∷ is) = late_installment now i ∷ late_installments now is

-- Both `updateMany` statements, on one agreement.
abbrev pub late_agreement : ℕ → Agreement → Agreement
late_agreement now a =
    let installments = late_installments now a.installments in
    if ltb a.due_date now && is_active a.status
    then record a { installments = installments; status = CreditStatus.overdue }
    else record a { installments = installments }

unfoldable pub mark_overdue : ℕ → ℕ → State → State
mark_overdue now org st = record st {
  agreements = update_many (λ a. a.organization == org) (late_agreement now) st.agreements;
}
