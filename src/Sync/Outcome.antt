-- ===== src/Sync/Outcome.antt =====
-- What a batch does to the till, and what its status says of it.
use mathlib.Core.Path.{subst}
use technova_pos_api.Sync.Again.{length-created, executed, submit_new-processed}
use technova_pos_api.Sales.Accounts.{create-sales}
use technova_pos_api.Directory.{User}
use technova_pos_api.Sync.Submit.{
  created, submit_found, has_client_id, processed, submit, status_of, process, operation_after,
  is_rejected, is_applied, execute, till_after,
}
use technova_pos_api.Sync.State.{
  Batch, State, BatchInput, OperationType, Json, OperationStatus, Operation, BatchStatus,
}
use technova_pos_api.Calendar.{Moment}
use technova_pos_api.Prelude.Result.{>>=-eq-ok, Result, err, ok}
use technova_pos_api.Prelude.{
  sym, find, [], arith, map, ◌∷◌, List, some, none, Option, false, true, Bool, ◌∙◌, ap, refl, ◌≡◌,
  ◌+◌, suc, ℕ, filter, length,
}
use technova_pos_api.Sales.State as Till
use technova_pos_api.Sales.State.{Shop}

-- The ids of the sales.
abbrev pub sale_ids : Till.State → List ℕ
sale_ids st = map (λ (s : Till.Sale). s.id) st.sales

abbrev pub with_sale : Option ℕ → List ℕ → List ℕ
with_sale none ids = ids
with_sale (some id) ids = id ∷ ids

abbrev pub outcome_code : OperationStatus → Option ℕ → List ℕ → List ℕ
outcome_code OperationStatus.applied sale ids = with_sale sale ids
outcome_code _ sale ids = ids

-- The sales that the operations report, the last one first, before the given ones.
abbrev pub made : {P : Type 0} → List (Operation P) → List ℕ → List ℕ
made [] ids = ids
made (o ∷ os) ids = made os (outcome_code o.status o.sale ids)

module _ {P : Type 0} where
  abbrev pub applied_count : List (Operation P) → ℕ
  applied_count os = length (filter is_applied os)

  abbrev pub rejected_count : List (Operation P) → ℕ
  rejected_count os = length (filter is_rejected os)

  execute-sales :
      (json : Json P) (shop : Shop) (now : Moment) (id : ℕ) (actor : User) (kind : OperationType)
      (payload : P) (st : Till.State) {next : Till.State}
      → execute json shop now id actor kind payload st ≡ ok next
      → sale_ids next ≡ id ∷ sale_ids st
  unfolding execute
  execute-sales json shop now id actor (OperationType.other s) payload st e = cc
  execute-sales json shop now id actor OperationType.sale_create payload st {next} e =
      let (dto, decoded, e1) = >>=-eq-ok (json.decode payload) _ e in
      let (row, is_id, rows) = create-sales shop now id actor dto st e1 in
      ap (map (λ (s : Till.Sale). s.id)) rows ∙ ap (λ k. k ∷ sale_ids st) is_id

  -- What the loop leaves, by the outcome of its first operation.
  record IsProcessed (os os' : List (Operation P)) (st st' : Till.State) : Type 0 where
    counted : applied_count os' + rejected_count os' ≡ length os
    sold : sale_ids st' ≡ made os' (sale_ids st)
    idle : applied_count os' ≡ 0 → st' ≡ st

  IsProcessed-cons :
      (now : Moment) (id : ℕ) (outcome : Result Till.State) (o : Operation P)
      (os os' : List (Operation P)) (st st' : Till.State)
      → ((next : Till.State) → outcome ≡ ok next → sale_ids next ≡ id ∷ sale_ids st)
      → IsProcessed os os' (till_after st outcome) st'
      → IsProcessed (o ∷ os) (operation_after now id outcome o ∷ os') st st'
  IsProcessed-cons now id (ok next) o os os' st st' sells h = record {
    counted = omega (arith, h.counted);
    sold = h.sold ∙ ap (made os') (sells next refl);
    idle = λ e. ground (arith, e);
  }
  IsProcessed-cons now id (err f) o os os' st st' sells h = record {
    counted = omega (arith, h.counted);
    sold = h.sold;
    idle = h.idle;
  }

  process-IsProcessed :
      (json : Json P) (shop : Shop) (now : Moment) (sale_id : ℕ → ℕ) (actor : User) (n : ℕ)
      (os : List (Operation P)) (st : Till.State)
      → let done = process json shop now sale_id actor n os st in IsProcessed os done.0 st done.1
  unfolding process
  process-IsProcessed json shop now sale_id actor n [] st = record {
    counted = refl;
    sold = refl;
    idle = λ e. refl;
  }
  process-IsProcessed json shop now sale_id actor n (o ∷ os) st =
      let outcome = execute json shop now (sale_id n) actor o.kind o.payload st in
      let rest = process json shop now sale_id actor (suc n) os (till_after st outcome) in
      IsProcessed-cons now (sale_id n) outcome o os rest.0 st rest.1
        (λ next e. execute-sales json shop now (sale_id n) actor o.kind o.payload st e)
        (process-IsProcessed json shop now sale_id actor (suc n) os (till_after st outcome))

abbrev pub is_completed : BatchStatus → Bool
is_completed BatchStatus.completed = true
is_completed _ = false

abbrev pub is_failed : BatchStatus → Bool
is_failed BatchStatus.failed = true
is_failed _ = false

-- The status against the counts.
status_of-counts :
    {P : Type 0} (os : List (Operation P))
    → (is_completed (status_of os) ≡ true → rejected_count os ≡ 0)
      × (is_failed (status_of os) ≡ true → applied_count os ≡ 0)
unfolding status_of
status_of-counts os = (λ e. ground (arith, e), λ e. ground (arith, e))

-- A batch that is submitted for the first time: each of its operations is either applied or
-- rejected, the till gains exactly the sales that the applied ones report, in their order, a
-- completed batch has all of its operations applied, and a failed one leaves the till as it was.
pub submit-outcome :
    {P : Type 0} (json : Json P) (shop : Shop) (now : Moment) (id : ℕ) (sale_id : ℕ → ℕ)
    (actor : User) (dto : BatchInput P) (st : State P) {b : Batch P} {st' : State P}
    → find (has_client_id dto.client_id) st.batches ≡ none
    → submit json shop now id sale_id actor dto st ≡ ok (b, st')
    → (applied_count b.operations + rejected_count b.operations ≡ length dto.operations)
      × (sale_ids st'.till ≡ made b.operations (sale_ids st.till))
      × (is_completed b.status ≡ true → applied_count b.operations ≡ length dto.operations)
      × (is_failed b.status ≡ true → st'.till ≡ st.till)
unfolding submit processed
submit-outcome json shop now id sale_id actor dto st {b} {st'} new e =
    let first = sym (ap (λ o. submit_found o json shop now id sale_id actor dto st) new) ∙ e in
    let (distinct, is_row, is_state) =
      submit_new-processed json shop now id sale_id actor dto st first in
    let os = executed json shop now sale_id actor dto st in
    let done =
      process-IsProcessed json shop now sale_id actor 0 (map (created json) dto.operations)
        st.till in
    let same_os : os ≡ b.operations = ap (λ (x : Batch _). x.operations) is_row in
    let same_status : status_of os ≡ b.status = ap (λ (x : Batch _). x.status) is_row in
    let same_till = ap (λ (x : State _). x.till) is_state in
    let long = length-created json dto.operations in
    let counts = status_of-counts os in
    let counted : applied_count os + rejected_count os ≡ length dto.operations =
      omega (arith, done.counted, long) in
    (
      subst (λ x. applied_count x + rejected_count x ≡ length dto.operations) same_os counted,
      subst (λ x. sale_ids st'.till ≡ made x (sale_ids st.till)) same_os
          (sym (ap sale_ids same_till) ∙ done.sold),
      λ c.
          subst (λ x. applied_count x ≡ length dto.operations) same_os
            (omega (arith, counted, counts.0 (ap is_completed same_status ∙ c))),
      λ f. sym same_till ∙ done.idle (counts.1 (ap is_failed same_status ∙ f)),
    )
