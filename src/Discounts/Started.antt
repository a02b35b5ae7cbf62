-- ===== src/Discounts/Started.antt =====
-- What becomes of a discount rule that has started.
use mathlib.Core.Path.{subst}
use technova_pos_api.Discounts.Code.{is_taken, promotion_code}
use technova_pos_api.Loyalty.Rules.{or_else}
use technova_pos_api.Prelude.Text.{Text}
use technova_pos_api.Discounts.Manage.{
  takes_code, merged_terms, flatten, misses_product, new_terms, validate, starts_after, new_rule,
  is_removable, changed_code, changed_rule, changes_configuration, remove, update, create, is_rule,
}
use technova_pos_api.Inventory.Transfer.{has_duplicates}
use technova_pos_api.Discounts.State.{RuleChange, NewRule, rule_ids, State, Rule}
use technova_pos_api.Directory.{organization_id, User, Directory}
use technova_pos_api.Prelude.Result.{ok-injective, raise_if-then, or_raise-then, >>=-eq-ok, ok}
use technova_pos_api.Prelude.{
  ◌∙◌, inr, inl, sym, Bool-cases, ==_iff, ◌&&◌, not, ap, any, none, refl, if◌then◌else◌, [], arith,
  ◌∷◌, List, some, Option, false, true, Bool, ◌≡◌, ◌≤◌, ℕ, contains, update_many, filter, find,
  ◌==◌,
}

-- One successful request to the service at the time `now`. The database gives a new rule an id that
-- is not in use; the statement of an update that writes runs at a time `later`.
pub data Step (dir : Directory) (now : ℕ) (s t : State) : Type 0 where
  creating :
      (id : ℕ) (random : Text) (actor : User) (dto : NewRule)
      → contains id (rule_ids s.rules) ≡ false
      → create dir id random actor dto s ≡ ok t
      → Step dir now s t
  updating :
      (later : ℕ) (random : Text) (actor : User) (id : ℕ) (dto : RuleChange)
      → update dir now later random actor id dto s ≡ ok t
      → Step dir now s t
  removing : (actor : User) (id : ℕ) → remove dir now actor id s ≡ ok t → Step dir now s t

-- Requests one after the other, the clock not going back: from `s` at `start` to a state whose last
-- request was made at the time named last.
pub data Run (dir : Directory) (start : ℕ) (s : State) : ℕ → State → Type 0 where
  here : Run dir start s start s
  next :
      {past : ℕ} {t u : State} (now : ℕ)
      → Run dir start s past t
      → past ≤ now
      → Step dir now t u
      → Run dir start s now u

-- The row of a rule, by its id.
abbrev pub row : ℕ → List Rule → Option Rule
row k = find (λ (r : Rule). r.id == k)

-- The same rule but for its status.
abbrev pub IsSameConfiguration : Rule → Rule → Type 0
IsSameConfiguration r r' = r' ≡ record r { status = r'.status }

row-update_many :
    (id k : ℕ) (f : Rule → Rule) (rules : List Rule) {r : Rule}
    → ((x : Rule) → (f x).id ≡ x.id)
    → row k rules ≡ some r
    → row k (update_many (λ (x : Rule). x.id == id) f rules) ≡ some (if id == k then f r else r)
row-update_many id k f [] same e = cc
row-update_many id k f (x ∷ xs) {r} same e =
    ground (arith, same x, row-update_many id k f xs {r = r} same)

row-filter :
    (k : ℕ) (test : Rule → Bool) (rules : List Rule) {r : Rule}
    → row k rules ≡ some r
    → test r ≡ true
    → row k (filter test rules) ≡ some r
row-filter k test [] e kept = cc
row-filter k test (x ∷ xs) {r} e kept = ground (arith, row-filter k test xs {r = r})

is_rule-listed :
    (org id : ℕ) (rules : List Rule) {a : Rule}
    → find (is_rule org id) rules ≡ some a
    → contains id (rule_ids rules) ≡ true
is_rule-listed org id [] found = cc
is_rule-listed org id (x ∷ xs) {a} found = ground (arith, is_rule-listed org id xs {a = a})

-- Ids are distinct, so the row that `update` reads is the one row of that id.
row-is_rule :
    (org id : ℕ) (rules : List Rule) {a r : Rule}
    → has_duplicates (rule_ids rules) ≡ false
    → find (is_rule org id) rules ≡ some a
    → row id rules ≡ some r
    → a ≡ r
unfolding has_duplicates
row-is_rule org id [] unique found at = cc
row-is_rule org id (x ∷ xs) {a} {r} unique found at =
    ground (arith, is_rule-listed org id xs {a = a}, row-is_rule org id xs {a = a} {r = r})

-- A request that changes no configuration changes the status alone.
changed_rule-status :
    (random : Text) (org : ℕ) (dto : RuleChange) (r e : Rule) (rules : List Rule)
    → changes_configuration dto ≡ false
    → changed_rule (changed_code random org e dto rules) dto r
      ≡ record r { status = or_else r.status dto.status }
unfolding changes_configuration changed_rule changed_code
changed_rule-status random org dto r e rules h = ground arith

-- The rows in which the rule `r`, with the id `k`, stands with the same configuration.
pub record IsKept (k : ℕ) (r : Rule) (rules : List Rule) : Type 0 where
  pub unique : has_duplicates (rule_ids rules) ≡ false
  pub row_after : Rule
  pub there : row k rules ≡ some row_after
  pub same : IsSameConfiguration r row_after

row-listed :
    (k : ℕ) (rules : List Rule) {r : Rule}
    → row k rules ≡ some r
    → contains k (rule_ids rules) ≡ true
row-listed k [] at = cc
row-listed k (x ∷ xs) {r} at = ground (arith, row-listed k xs {r = r})

cons-IsKept :
    (k : ℕ) (r new : Rule) (rules : List Rule)
    → contains new.id (rule_ids rules) ≡ false
    → has_duplicates (rule_ids rules) ≡ false
    → row k rules ≡ some r
    → IsKept k r (new ∷ rules)
unfolding has_duplicates
cons-IsKept k r new rules fresh unique at = record {
  unique = ground (arith, fresh, unique);
  row_after = r;
  there = elim (Bool-cases (new.id == k)) [
    | inl met ↦
        (let listed : contains new.id (rule_ids rules) ≡ true =
            subst (λ j. contains j (rule_ids rules) ≡ true) (sym ((==_iff new.id k).0 met))
              (row-listed k rules at) in
          cc)
    | inr unmet ↦ ground (arith, at)
  ];
  same = refl;
}

rule_ids-update_many :
    (id : ℕ) (f : Rule → Rule) (rules : List Rule)
    → ((x : Rule) → (f x).id ≡ x.id)
    → rule_ids (update_many (λ (x : Rule). x.id == id) f rules) ≡ rule_ids rules
rule_ids-update_many id f [] same = refl
rule_ids-update_many id f (x ∷ xs) same = ground (arith, same x, rule_ids-update_many id f xs same)

update_many-IsKept :
    (id k : ℕ) (f : Rule → Rule) (r : Rule) (rules : List Rule)
    → ((x : Rule) → (f x).id ≡ x.id)
    → ((id == k) ≡ true → IsSameConfiguration r (f r))
    → has_duplicates (rule_ids rules) ≡ false
    → row k rules ≡ some r
    → IsKept k r (update_many (λ (x : Rule). x.id == id) f rules)
update_many-IsKept id k f r rules keeps_id keeps unique at = record {
  unique = rw (rule_ids-update_many id f rules keeps_id) unique;
  row_after = if id == k then f r else r;
  there = row-update_many id k f rules keeps_id at;
  same = elim (Bool-cases (id == k)) [ inl met ↦ rw met (keeps met) | inr unmet ↦ rw unmet refl ];
}

filter_unique :
    (test : Rule → Bool) (rules : List Rule)
    → ((k : ℕ)
        → contains k (rule_ids rules) ≡ false
        → contains k (rule_ids (filter test rules)) ≡ false)
      × (has_duplicates (rule_ids rules) ≡ false
          → has_duplicates (rule_ids (filter test rules)) ≡ false)
unfolding has_duplicates
filter_unique test [] = (λ k h. h, λ h. h)
filter_unique test (x ∷ xs) =
    let rest = filter_unique test xs in
    (λ k h. ground (arith, rest.0 k), λ h. ground (arith, rest.0 x.id, rest.1))

create-IsKept :
    (dir : Directory) (id : ℕ) (random : Text) (actor : User) (dto : NewRule) (s : State)
    {t : State} (k : ℕ) (r : Rule)
    → contains id (rule_ids s.rules) ≡ false
    → create dir id random actor dto s ≡ ok t
    → has_duplicates (rule_ids s.rules) ≡ false
    → row k s.rules ≡ some r
    → IsKept k r t.rules
unfolding create new_rule
create-IsKept dir id random actor dto s {t} k r fresh e unique at =
    let (org, known, e1) = >>=-eq-ok (organization_id dir actor.id) _ e in
    let (u, valid, e2) = >>=-eq-ok (validate (new_terms dto)) _ e1 in
    let (known_product, e3) = raise_if-then (misses_product dir org dto.product) _ _ e2 in
    let code = promotion_code random org none s.rules dto.name dto.code in
    let (free, e4) = raise_if-then (is_taken org none code s.rules) _ _ e3 in
    let same = ap (λ (x : State). x.rules) (ok-injective e4) in
    subst (IsKept k r) same (cons-IsKept k r (new_rule id org code dto) s.rules fresh unique at)

unless_open : (b started : Bool) → (b && not started) ≡ false → started ≡ false → b ≡ false
unless_open true started h k = ground (arith, h, k)
unless_open false started h k = refl

update-IsKept :
    (dir : Directory) (now later : ℕ) (random : Text) (actor : User) (id : ℕ) (dto : RuleChange)
    (s : State) {t : State} (k : ℕ) (r : Rule)
    → update dir now later random actor id dto s ≡ ok t
    → has_duplicates (rule_ids s.rules) ≡ false
    → row k s.rules ≡ some r
    → starts_after now r ≡ false
    → IsKept k r t.rules
unfolding update changed_rule
update-IsKept dir now later random actor id dto s {t} k r e unique at started =
    let (org, known, e1) = >>=-eq-ok (organization_id dir actor.id) _ e in
    let (a, found, e2) = or_raise-then (find (is_rule org id) s.rules) _ _ e1 in
    let (open_rule, e3) =
      raise_if-then (changes_configuration dto && not (starts_after now a)) _ _ e2 in
    let (known_product, e4) = raise_if-then (misses_product dir org (flatten dto.product)) _ _ e3 in
    let (u, valid, e5) = >>=-eq-ok (validate (merged_terms a dto)) _ e4 in
    let code = changed_code random org a dto s.rules in
    let (still_open, e6) =
      raise_if-then (changes_configuration dto && not (starts_after later a)) _ _ e5 in
    let (free, e7) = raise_if-then (takes_code org id code s.rules) _ _ e6 in
    let same = ap (λ (x : State). x.rules) (ok-injective e7) in
    let f = changed_rule code dto in
    subst (IsKept k r) same (
      update_many-IsKept id k f r s.rules (λ x. refl)
        (λ met.
          let is_k = (==_iff id k).0 met in
          let is_r : a ≡ r =
            row-is_rule org id s.rules unique found
              (subst (λ j. row j s.rules ≡ some r) (sym is_k) at) in
          let unchanged : changes_configuration dto ≡ false =
            unless_open (changes_configuration dto) _ open_rule
              (subst (λ x. starts_after now x ≡ false) (sym is_r) started) in
          changed_rule-status random org dto r a s.rules unchanged)
        unique at)

remove-IsKept :
    (dir : Directory) (now : ℕ) (actor : User) (id : ℕ) (s : State) {t : State} (k : ℕ) (r : Rule)
    → remove dir now actor id s ≡ ok t
    → has_duplicates (rule_ids s.rules) ≡ false
    → row k s.rules ≡ some r
    → starts_after now r ≡ false
    → IsKept k r t.rules
unfolding remove is_removable
remove-IsKept dir now actor id s {t} k r e unique at started =
    let (org, known, e1) = >>=-eq-ok (organization_id dir actor.id) _ e in
    let (a, found, e2) = or_raise-then (find (is_rule org id) s.rules) _ _ e1 in
    let (some_row, e3) = raise_if-then (not (any (is_removable now org id s) s.rules)) _ _ e2 in
    let same = ap (λ (x : State). x.rules) (ok-injective e3) in
    subst (IsKept k r) same (record {
      unique = (filter_unique (λ x. not (is_removable now org id s x)) s.rules).1 unique;
      row_after = r;
      there =
          row-filter k (λ x. not (is_removable now org id s x)) s.rules at
            (ground (arith, started));
      same = refl;
    })

Step-IsKept :
    (dir : Directory) (now : ℕ) (s t : State) (k : ℕ) (r : Rule)
    → Step dir now s t
    → has_duplicates (rule_ids s.rules) ≡ false
    → row k s.rules ≡ some r
    → starts_after now r ≡ false
    → IsKept k r t.rules
Step-IsKept dir now s t k r (creating id random actor dto fresh e) unique at started =
    create-IsKept dir id random actor dto s k r fresh e unique at
Step-IsKept dir now s t k r (updating later random actor id dto e) unique at started =
    update-IsKept dir now later random actor id dto s k r e unique at started
Step-IsKept dir now s t k r (removing actor id e) unique at started =
    remove-IsKept dir now actor id s k r e unique at started

Run-forward :
    (dir : Directory) (start : ℕ) (s : State) {past : ℕ} {t : State}
    → Run dir start s past t
    → start ≤ past
Run-forward dir start s here = omega arith
Run-forward dir start s (next now run later step) =
    omega (arith, Run-forward dir start s run, later)

starts_after-later :
    (start now : ℕ) (r r' : Rule)
    → IsSameConfiguration r r'
    → start ≤ now
    → starts_after start r ≡ false
    → starts_after now r' ≡ false
unfolding starts_after
starts_after-later start now r r' same later started =
    let same_start : r'.starts_at ≡ r.starts_at = ap (λ (x : Rule). x.starts_at) same in
    ground (arith, same_start, later, started)

-- Once a discount rule has started, nothing that the service does afterwards, in any order and by
-- any users, removes it or changes anything of it but its status: sales are priced by the rule as
-- it was announced. Ids are distinct, a new rule gets one that is not in use, and the clock does
-- not go back.
pub Run-IsKept :
    (dir : Directory) (start : ℕ) (s : State) (k : ℕ) (r : Rule) {now : ℕ} {t : State}
    → Run dir start s now t
    → has_duplicates (rule_ids s.rules) ≡ false
    → row k s.rules ≡ some r
    → starts_after start r ≡ false
    → IsKept k r t.rules
Run-IsKept dir start s k r here unique at started = record {
  unique = unique;
  row_after = r;
  there = at;
  same = refl;
}
Run-IsKept dir start s k r (next {past} {t} {u} now run later step) unique at started =
    let before = Run-IsKept dir start s k r run unique at started in
    let past_start = Run-forward dir start s run in
    let after = Step-IsKept dir now t u k before.row_after step before.unique before.there (
      starts_after-later start now r before.row_after before.same (omega (arith, past_start, later))
        started) in
    record {
      unique = after.unique;
      row_after = after.row_after;
      there = after.there;
      same =
          after.same ∙ ap (λ (x : Rule). record x { status = after.row_after.status }) before.same;
    }
