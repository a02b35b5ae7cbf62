-- ===== src/Sync/Again.antt =====
-- A batch that is sent again, as a till does when it got no answer.
use technova_pos_api.Prelude.Result.{
  ◌>>=◌, ok_pair-injective, raise_if-then, lit, conflict, Result, err, ok,
}
use technova_pos_api.Directory.{User}
use technova_pos_api.Calendar.{Moment}
use technova_pos_api.Sales.State.{Shop}
use technova_pos_api.Prelude.Text.{text_eq_refl}
use technova_pos_api.Sync.Submit.{
  submit_found, has_client_id, submit, resubmit, new_batch, is_used, processed, status, submit_new,
  operation_after, till_after, is_repeat, execute, matches_candidate, process, operation_ids,
  last_with, created, same_kind,
}
use technova_pos_api.Inventory.Transfer.{has_duplicates}
use technova_pos_api.Prelude.{
  find, sym, if◌then◌else◌, Option, any, ◌&&◌, ◌∙◌, ap, ==_iff, ◌==◌, [], arith, map, ◌∷◌, List,
  some, none, false, true, Bool, refl, ◌≡◌, suc, ℕ, contains, All-map, All, all, length,
}
use technova_pos_api.Sales.State as Till
use technova_pos_api.Sync.State.{
  State, BatchInput, Batch, Operation, OperationType, OperationInput, Json,
}

-- The operation that each id of the request names, where the ids are distinct.
last_with-absent :
    {P : Type 0} (k : ℕ) (is : List (OperationInput P))
    → contains k (operation_ids is) ≡ false
    → last_with k is ≡ none
unfolding last_with
last_with-absent k [] h = refl
last_with-absent k (i ∷ is) h = ground (arith, last_with-absent k is)

-- The test of `is_repeat` on one operation.
abbrev matches : {P : Type 0} → Json P → List (OperationInput P) → Operation P → Bool
matches json is o = matches_candidate json (last_with o.client_id is) o

-- Each operation is the one that its own id names.
abbrev IsNamed : {P : Type 0} → List (OperationInput P) → OperationInput P → Type 0
IsNamed is i = last_with i.client_id is ≡ some i

cons-IsNamed :
    {P : Type 0} (x i : OperationInput P) (is : List (OperationInput P))
    → IsNamed is i
    → IsNamed (x ∷ is) i
unfolding last_with
cons-IsNamed x i is h = ground (arith, h)

head-IsNamed :
    {P : Type 0} (x : OperationInput P) (is : List (OperationInput P))
    → contains x.client_id (operation_ids is) ≡ false
    → IsNamed (x ∷ is) x
unfolding last_with
head-IsNamed x is h = ground (arith, last_with-absent x.client_id is h)

All-IsNamed :
    {P : Type 0} (is : List (OperationInput P))
    → has_duplicates (operation_ids is) ≡ false
    → All (IsNamed is) is
unfolding has_duplicates
All-IsNamed [] h = tt
All-IsNamed (x ∷ is) h = (
  head-IsNamed x is (ground (arith, h)),
  All-map (λ i named. cons-IsNamed x i is named) is (All-IsNamed is (ground (arith, h))),
)

-- Whether an operation is that of the request does not hang on its outcome.
matches_candidate-outcome :
    {P : Type 0} (json : Json P) (c : Option (OperationInput P)) (now : Moment) (id : ℕ)
    (outcome : Result Till.State) (o : Operation P)
    → matches_candidate json c (operation_after now id outcome o) ≡ matches_candidate json c o
matches_candidate-outcome json none now id outcome o = refl
matches_candidate-outcome json (some i) now id (ok next) o = refl
matches_candidate-outcome json (some i) now id (err e) o = refl

operation_after-matches :
    {P : Type 0} (json : Json P) (is : List (OperationInput P)) (now : Moment) (id : ℕ)
    (outcome : Result Till.State) (o : Operation P)
    → matches json is (operation_after now id outcome o) ≡ matches json is o
operation_after-matches json is now id (ok next) o =
    matches_candidate-outcome json (last_with o.client_id is) now id (ok next) o
operation_after-matches json is now id (err e) o =
    matches_candidate-outcome json (last_with o.client_id is) now id (err e) o

process-matches :
    {P : Type 0} (json : Json P) (shop : Shop) (now : Moment) (sale_id : ℕ → ℕ) (actor : User)
    (is : List (OperationInput P)) (n : ℕ) (os : List (Operation P)) (st : Till.State)
    → (length (process json shop now sale_id actor n os st).0 ≡ length os)
      × (all (matches json is) (process json shop now sale_id actor n os st).0
          ≡ all (matches json is) os)
unfolding process
process-matches json shop now sale_id actor is n [] st = (refl, refl)
process-matches json shop now sale_id actor is n (o ∷ os) st =
    let outcome = execute json shop now (sale_id n) actor o.kind o.payload st in
    let rest = process-matches json shop now sale_id actor is (suc n) os (till_after st outcome) in
    (
      ap suc rest.0,
      ap
            (λ b.
              b
              && all (matches json is)
                  (process json shop now sale_id actor (suc n) os (till_after st outcome)).0)
            (operation_after-matches json is now (sale_id n) outcome o)
          ∙ ap (λ b. matches json is o && b) rest.1,
    )

same_kind_refl : (k : OperationType) → same_kind k k ≡ true
same_kind_refl OperationType.sale_create = refl
same_kind_refl (OperationType.other s) = text_eq_refl s

-- Whether the database keeps the text of each payload.
abbrev pub keeps_texts : {P : Type 0} → Json P → List (OperationInput P) → Bool
keeps_texts json is = all (λ i. json.same_text i.payload (json.stored i.payload)) is

created-matches :
    {P : Type 0} (json : Json P) (is rest : List (OperationInput P))
    → All (IsNamed is) rest
    → all (matches json is) (map (created json) rest) ≡ keeps_texts json rest
unfolding created
created-matches json is [] h = refl
created-matches json is (i ∷ rest) h =
    let head : matches_candidate json (last_with i.client_id is) (created json i)
        ≡ json.same_text i.payload (json.stored i.payload) =
      ap (λ c. matches_candidate json c (created json i)) h.0
      ∙ ap (λ b. b && json.same_text i.payload (json.stored i.payload)) (same_kind_refl i.kind) in
    ap (λ b. b && all (matches json is) (map (created json) rest)) head
    ∙ ap (λ b. json.same_text i.payload (json.stored i.payload) && b)
        (created-matches json is rest h.1)

pub length-created :
    {P : Type 0} (json : Json P) (is : List (OperationInput P))
    → length (map (created json) is) ≡ length is
length-created json [] = refl
length-created json (i ∷ is) = ap suc (length-created json is)

-- A batch that was just executed counts as repeated when the database keeps its texts.
process-is_repeat :
    {P : Type 0} (json : Json P) (shop : Shop) (now : Moment) (sale_id : ℕ → ℕ) (actor : User)
    (is : List (OperationInput P)) (st : Till.State)
    → has_duplicates (operation_ids is) ≡ false
    → is_repeat json is (process json shop now sale_id actor 0 (map (created json) is) st).0
      ≡ keeps_texts json is
unfolding is_repeat
process-is_repeat json shop now sale_id actor is st unique =
    let kept = process-matches json shop now sale_id actor is 0 (map (created json) is) st in
    let os = (process json shop now sale_id actor 0 (map (created json) is) st).0 in
    let as_long : (length os == length is) ≡ true =
      (==_iff (length os) (length is)).1 (kept.0 ∙ length-created json is) in
    ap (λ b. b && all (matches json is) os) as_long
    ∙ kept.1
    ∙ created-matches json is is (All-IsNamed is unique)

-- The outcome of a batch that is sent once more.
abbrev pub answer_again : {P : Type 0} → Bool → Batch P → State P → Result (Batch P × State P)
answer_again kept b st =
    if kept
    then ok (b, st)
    else err (conflict (lit "The batch identifier was reused with different operations."))

-- The operations of a new batch, after they were executed.
abbrev pub executed :
    {P : Type 0}
    → Json P
    → Shop
    → Moment
    → (ℕ → ℕ)
    → User
    → BatchInput P
    → State P
    → List (Operation P)
executed json shop now sale_id actor dto st =
    (process json shop now sale_id actor 0 (map (created json) dto.operations) st.till).0

status-processed :
    {P : Type 0} (json : Json P) (shop : Shop) (now : Moment) (id : ℕ) (sale_id : ℕ → ℕ)
    (actor : User) (dto : BatchInput P) (st : State P)
    → status actor.id id (processed json shop now id sale_id actor dto st)
      ≡ ok (new_batch now id actor dto (executed json shop now sale_id actor dto st))
unfolding status processed
status-processed json shop now id sale_id actor dto st =
    rw ((==_iff id id).1 refl, (==_iff actor.id actor.id).1 refl) refl

-- What the first acceptance of a batch leaves.
pub submit_new-processed :
    {P : Type 0} (json : Json P) (shop : Shop) (now : Moment) (id : ℕ) (sale_id : ℕ → ℕ)
    (actor : User) (dto : BatchInput P) (st : State P) {b : Batch P} {st' : State P}
    → submit_new json shop now id sale_id actor dto st ≡ ok (b, st')
    → (has_duplicates (operation_ids dto.operations) ≡ false)
      × (new_batch now id actor dto (executed json shop now sale_id actor dto st) ≡ b)
      × (processed json shop now id sale_id actor dto st ≡ st')
unfolding submit_new
submit_new-processed json shop now id sale_id actor dto st {b} {st'} e =
    let (distinct, e1) = raise_if-then (has_duplicates (operation_ids dto.operations)) _ _ e in
    let (unused, e2) = raise_if-then (any (is_used st.batches) dto.operations) _ _ e1 in
    let done = processed json shop now id sale_id actor dto st in
    let (same_row, same_state) = ok_pair-injective (
      sym
        (ap (λ r. r >>= λ x. ok (x, done)) (status-processed json shop now id sale_id actor dto st))
      ∙ e2) in
    (distinct, same_row, same_state)

resubmit-answer_again :
    {P : Type 0} (json : Json P) (actor : User) (dto : BatchInput P) (b : Batch P) (st : State P)
    (kept : Bool)
    → (b.user == actor.id) ≡ true
    → (b.device == dto.device) ≡ true
    → is_repeat json dto.operations b.operations ≡ kept
    → resubmit json actor dto b st ≡ answer_again kept b st
unfolding resubmit
resubmit-answer_again json actor dto b st true own here same = rw (own, here, same) refl
resubmit-answer_again json actor dto b st false own here same = rw (own, here, same) refl

-- A batch that was accepted is not executed a second time: sending it again, at any later time,
-- changes nothing. The answer is the stored batch if the database keeps the text of every payload;
-- if it does not keep one of them, as `jsonb` does with the order of keys, the same batch is
-- refused as one with other operations. No batch with its identifier was there before.
pub submit-answer_again :
    {P : Type 0} (json : Json P) (shop : Shop) (now : Moment) (id : ℕ) (sale_id : ℕ → ℕ)
    (actor : User) (dto : BatchInput P) (st : State P) {b : Batch P} {st' : State P}
    → find (has_client_id dto.client_id) st.batches ≡ none
    → submit json shop now id sale_id actor dto st ≡ ok (b, st')
    → (shop_after : Shop) (later : Moment) (id_after : ℕ) (sale_id_after : ℕ → ℕ)
    → submit json shop_after later id_after sale_id_after actor dto st'
      ≡ answer_again (keeps_texts json dto.operations) b st'
unfolding submit processed
submit-answer_again json shop now id sale_id actor dto st {b} {st'} new e shop_after later id_after
      sale_id_after =
    let first = sym (ap (λ o. submit_found o json shop now id sale_id actor dto st) new) ∙ e in
    let (distinct, is_row, is_state) =
      submit_new-processed json shop now id sale_id actor dto st first in
    let row = new_batch now id actor dto (executed json shop now sale_id actor dto st) in
    let found : find (has_client_id dto.client_id) st'.batches ≡ some row =
      ap (λ (s : State _). find (has_client_id dto.client_id) s.batches) (sym is_state)
      ∙ rw ((==_iff dto.client_id dto.client_id).1 refl) refl in
    let repeat = process-is_repeat json shop now sale_id actor dto.operations st.till distinct in
    ap (λ o. submit_found o json shop_after later id_after sale_id_after actor dto st') found
    ∙ resubmit-answer_again json actor dto row st' (keeps_texts json dto.operations)
        ((==_iff actor.id actor.id).1 refl) ((==_iff dto.device dto.device).1 refl) repeat
    ∙ ap (λ x. answer_again (keeps_texts json dto.operations) x st') is_row
