-- ===== src/Returns/Offset.antt =====
-- The part of a return that lowers what the customer still owes: the loop of
-- `ReturnsService.create` over the installments, from the last one, and the agreement.
use technova_pos_api.Prelude.{
  ℕ, suc, ◌+◌, ◌-◌, ◌^◌, min, Option, none, some, List, [], ◌∷◌, ◌==◌, leb, if◌then◌else◌, find,
  update_many,
}
use technova_pos_api.Prelude.Int.{ℤ, pos, ◌-ℤ◌}
use technova_pos_api.Credit.State.{Installment, InstallmentStatus, CreditStatus, owed}
use technova_pos_api.Sales.Pricing.{cents}
use technova_pos_api.Returns.State.{Agreement}

-- 0.001 of the currency, in the unit of amounts.
abbrev pub tolerance : ℕ
tolerance = 10 ^ 14

unfoldable pub reduce_installment : ℕ → Installment → Installment
reduce_installment reduction i =
    let new_due = i.amount_due - reduction in
    record i {
      amount_due = new_due;
      status = if leb new_due (i.amount_paid + tolerance) then InstallmentStatus.paid else i.status;
    }

-- `break` once nothing of the offset remains.
unfoldable pub reduce_installments : ℕ → List Installment → List Installment
reduce_installments remaining [] = []
reduce_installments remaining (i ∷ is) =
    let reduction = min remaining (owed i) in
    let rest = reduce_installments (remaining - reduction) is in
    if remaining == 0 then i ∷ is else reduce_installment reduction i ∷ rest

unfoldable pub reduce_agreement : ℕ → Agreement → Agreement
reduce_agreement offset a =
    let outstanding = a.outstanding - offset in
    record a {
      principal = a.principal -ℤ pos offset;
      outstanding = outstanding;
      status = if leb outstanding (cents 1) then CreditStatus.paid else a.status;
      installments = reduce_installments offset a.installments;
    }

-- `sale.creditAgreement`: a sale has at most one.
abbrev pub agreement_of : ℕ → List Agreement → Option Agreement
agreement_of sale = find (λ (a : Agreement). a.sale == sale)

abbrev pub reduce_found : ℕ → Option Agreement → List Agreement → List Agreement
reduce_found offset none ags = ags
reduce_found offset (some a) ags =
    update_many (λ (x : Agreement). x.id == a.id) (reduce_agreement offset) ags

-- `if (creditOffset > 0 && sale.creditAgreement)`
unfoldable pub offset_credit : ℕ → ℤ → List Agreement → List Agreement
offset_credit sale (pos (suc n)) ags = reduce_found (suc n) (agreement_of sale ags) ags
offset_credit sale _ ags = ags
