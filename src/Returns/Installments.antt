-- ===== src/Returns/Installments.antt =====
-- What is owed under the offset of a return.
use technova_pos_api.Returns.Prepare.{find_sale}
use technova_pos_api.Returns.Refund.{credit_offset}
use technova_pos_api.Returns.Steps.{create-IsCreated}
use technova_pos_api.Returns.Create.{total_refund, create, ReturnResult}
use technova_pos_api.Prelude.{
  true, ==_iff, not, inr, inl, ap, refl, take, update_many, filter, Bool-cases, sym,
}
use mathlib.Core.Path.{subst}
use technova_pos_api.Prelude.Result.{ok}
use technova_pos_api.Directory.{organization_id, Directory, User}
use technova_pos_api.Prelude.{none, some}
use technova_pos_api.Prelude.{
  some, Option, ℕ, ◌-◌, ◌≡◌, zero, suc, min, map, ◌==◌, List, [], ◌∷◌, arith, sum_of, All,
  All-update_many,
}
use technova_pos_api.Prelude.Int.{pos_part, ℤ, pos, negsuc}
use technova_pos_api.Credit.State.{Installment, owed}
use technova_pos_api.Returns.State.{Sale, State, ReturnRequest, Agreement}
use technova_pos_api.Returns.Offset.{
  agreement_of, reduce_found, reduce_installment, reduce_installments, reduce_agreement,
  offset_credit,
}

abbrev pub paid_amounts : List Installment → List ℕ
paid_amounts = map (λ (i : Installment). i.amount_paid)

-- The offset is taken from what the installments still owe, as far as that goes. What was paid on
-- them stays.
pub reduce_installments-owed :
    (remaining : ℕ) (is : List Installment)
    → (sum_of owed (reduce_installments remaining is) ≡ sum_of owed is - remaining)
      × (paid_amounts (reduce_installments remaining is) ≡ paid_amounts is)
unfolding reduce_installments reduce_installment
reduce_installments-owed remaining [] = ground arith
reduce_installments-owed remaining (i ∷ is) =
    ground (arith, reduce_installments-owed (remaining - min remaining (owed i)) is)

-- The outstanding balance is what the installments owe together.
abbrev pub IsBalanced : Agreement → Type 0
IsBalanced a = a.outstanding ≡ sum_of owed a.installments

pub reduce_agreement-IsBalanced :
    (offset : ℕ) (a : Agreement) → IsBalanced a → IsBalanced (reduce_agreement offset a)
unfolding reduce_agreement
reduce_agreement-IsBalanced offset a h =
    omega (arith, h, (reduce_installments-owed offset a.installments).0)

reduce_found-IsBalanced :
    (offset : ℕ) (found : Option Agreement) (ags : List Agreement)
    → All IsBalanced ags
    → All IsBalanced (reduce_found offset found ags)
reduce_found-IsBalanced offset none ags h = h
reduce_found-IsBalanced offset (some a) ags h =
    All-update_many IsBalanced (λ (x : Agreement). x.id == a.id) (reduce_agreement offset)
      (reduce_agreement-IsBalanced offset) ags h

-- The agreements stay balanced when a return lowers what is owed for its sale.
pub offset_credit-IsBalanced :
    (sale : ℕ) (offset : ℤ) (ags : List Agreement)
    → All IsBalanced ags
    → All IsBalanced (offset_credit sale offset ags)
unfolding offset_credit
offset_credit-IsBalanced sale (pos zero) ags h = h
offset_credit-IsBalanced sale (negsuc n) ags h = h
offset_credit-IsBalanced sale (pos (suc n)) ags h =
    reduce_found-IsBalanced (suc n) (agreement_of sale ags) ags h

-- Of any number of installments from the last one on, the offset is taken as far as they owe: an
-- earlier one is touched only after all later ones owe nothing.
reduce_installments-take :
    (k remaining : ℕ) (is : List Installment)
    → sum_of owed (take k (reduce_installments remaining is)) ≡ sum_of owed (take k is) - remaining
unfolding reduce_installments reduce_installment
reduce_installments-take zero remaining is = omega arith
reduce_installments-take (suc k) remaining [] = omega arith
reduce_installments-take (suc k) remaining (i ∷ is) =
    ground (arith, reduce_installments-take k (remaining - min remaining (owed i)) is)

-- An agreement after `offset` has been taken off, the installments standing from the last one on.
pub record IsReduced (offset : ℕ) (a a' : Agreement) : Type 0 where
  pub same : a'.id ≡ a.id
  pub outstanding : a'.outstanding ≡ a.outstanding - offset
  pub paid : paid_amounts a'.installments ≡ paid_amounts a.installments
  pub from_last :
      (k : ℕ) → sum_of owed (take k a'.installments) ≡ sum_of owed (take k a.installments) - offset

abbrev pub others : ℕ → List Agreement → List Agreement
others id = filter (λ (a : Agreement). not (a.id == id))

-- The agreement that was found for the sale, if it has one, is reduced, and the others stay.
abbrev pub IsTakenFrom : Option Agreement → ℕ → ℕ → List Agreement → List Agreement → Type 0
IsTakenFrom none sale offset ags ags' = ags' ≡ ags
IsTakenFrom (some a) sale offset ags ags' =
    (a' : Agreement) × (agreement_of sale ags' ≡ some a')
    × IsReduced offset a a'
    × (others a.id ags' ≡ others a.id ags)

abbrev pub IsTakenOff : ℕ → ℕ → List Agreement → List Agreement → Type 0
IsTakenOff sale offset ags ags' = IsTakenFrom (agreement_of sale ags) sale offset ags ags'

reduce_agreement-IsReduced :
    (offset : ℕ) (a : Agreement) → IsReduced offset a (reduce_agreement offset a)
unfolding reduce_agreement
reduce_agreement-IsReduced offset a = record {
  same = refl;
  outstanding = refl;
  paid = (reduce_installments-owed offset a.installments).1;
  from_last = λ k. reduce_installments-take k offset a.installments;
}

agreement_of-update_many :
    (sale offset : ℕ) (ags : List Agreement) (a : Agreement)
    → agreement_of sale ags ≡ some a
    → agreement_of sale
        (update_many (λ (x : Agreement). x.id == a.id) (reduce_agreement offset) ags)
      ≡ some (reduce_agreement offset a)
unfolding reduce_agreement
agreement_of-update_many sale offset [] a found = cc
agreement_of-update_many sale offset (x ∷ xs) a found = elim (Bool-cases (x.sale == sale)) [
  | inl met ↦
      (let same : x ≡ a = ground (arith, met, found) in
        let own : (x.id == x.id) ≡ true = (==_iff x.id x.id).1 refl in
        subst
          (λ (y : Agreement).
            agreement_of sale
              (update_many (λ (z : Agreement). z.id == y.id) (reduce_agreement offset) (x ∷ xs))
            ≡ some (reduce_agreement offset y))
          same (ground (arith, own, met)))
  | inr unmet ↦ ground (arith, unmet, agreement_of-update_many sale offset xs a)
]

others-update_many :
    (id offset : ℕ) (ags : List Agreement)
    → others id (update_many (λ (x : Agreement). x.id == id) (reduce_agreement offset) ags)
      ≡ others id ags
unfolding reduce_agreement
others-update_many id offset [] = refl
others-update_many id offset (x ∷ xs) = ground (arith, others-update_many id offset xs)

nothing-IsReduced : (a : Agreement) → IsReduced 0 a a
nothing-IsReduced a = record {
  same = refl;
  outstanding = omega arith;
  paid = refl;
  from_last = λ k. omega arith;
}

reduce_found-IsTakenFrom :
    (sale offset : ℕ) (ags : List Agreement) (found : Option Agreement)
    → agreement_of sale ags ≡ found
    → IsTakenFrom found sale offset ags (reduce_found offset found ags)
reduce_found-IsTakenFrom sale offset ags none e = refl
reduce_found-IsTakenFrom sale offset ags (some a) e = (
  reduce_agreement offset a,
  agreement_of-update_many sale offset ags a e,
  reduce_agreement-IsReduced offset a,
  others-update_many a.id offset ags,
)

nothing-IsTakenFrom :
    (sale : ℕ) (ags : List Agreement) (found : Option Agreement)
    → agreement_of sale ags ≡ found
    → IsTakenFrom found sale 0 ags ags
nothing-IsTakenFrom sale ags none e = refl
nothing-IsTakenFrom sale ags (some a) e = (a, e, nothing-IsReduced a, refl)

offset-IsTakenOff :
    (sale offset : ℕ) (ags : List Agreement)
    → IsTakenOff sale offset ags (offset_credit sale (pos offset) ags)
unfolding offset_credit
offset-IsTakenOff sale zero ags = nothing-IsTakenFrom sale ags (agreement_of sale ags) refl
offset-IsTakenOff sale (suc n) ags =
    reduce_found-IsTakenFrom sale (suc n) ags (agreement_of sale ags) refl

offset_credit-IsTakenOff :
    (sale total : ℕ) (due : ℤ) (ags : List Agreement)
    → IsTakenOff sale
        (min total (pos_part due))
        ags
        (offset_credit sale (credit_offset total due) ags)
unfolding offset_credit credit_offset
offset_credit-IsTakenOff sale total (pos due) ags = offset-IsTakenOff sale (min total due) ags
offset_credit-IsTakenOff sale total (negsuc n) ags =
    subst (λ k. IsTakenOff sale k ags ags) (omega arith)
      (nothing-IsTakenFrom sale ags (agreement_of sale ags) refl)

-- What a return takes off the customer's debt: the value of the goods, up to the balance that is
-- due on the sale. It comes off the outstanding balance of the sale's agreement and off what the
-- installments owe, from the last one on: an earlier installment is touched only when all later
-- ones owe nothing. What was paid on them stays, and so do the other agreements; and every
-- agreement still has as its balance what its installments owe, if it was so before.
pub create-IsTakenOff :
    (dir : Directory) (now id : ℕ) (actor : User) (dto : ReturnRequest) (st : State)
    {result : ReturnResult} {st' : State}
    → create dir now id actor dto st ≡ ok (result, st')
    → All IsBalanced st.agreements
    → (org : ℕ) × (sale : Sale) × (organization_id dir actor.id ≡ ok org)
      × (find_sale dir org dto.sale st ≡ ok sale)
      × IsTakenOff sale.id
          (min result.total (pos_part sale.balance_due))
          st.agreements
          st'.agreements
      × All IsBalanced st'.agreements
create-IsTakenOff dir now id actor dto st {result} {st'} e h =
    let done = create-IsCreated dir now id actor dto st e in
    let total = total_refund done.rows in
    let is_total = ap (λ (r : ReturnResult). r.total) done.result_lem in
    let taken =
      subst (IsTakenOff done.sale.id (min total (pos_part done.sale.balance_due)) st.agreements)
        (sym done.agreements)
        (offset_credit-IsTakenOff done.sale.id total done.sale.balance_due st.agreements) in
    (
      done.org,
      done.sale,
      done.known,
      done.found,
      subst
          (λ n.
            IsTakenOff done.sale.id (min n (pos_part done.sale.balance_due)) st.agreements
              st'.agreements)
          (sym is_total) taken,
      subst (All IsBalanced) (sym done.agreements) (
          offset_credit-IsBalanced done.sale.id
            (credit_offset (total_refund done.rows) done.sale.balance_due) st.agreements h),
    )
