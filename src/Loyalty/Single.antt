-- ===== src/Loyalty/Single.antt =====
-- The active rules of an organization under `createRule` and `updateRule`.
use technova_pos_api.Prelude.{
  inl, inr, none, Bool-cases, ap, not, Bool, ℕ, ◌≡◌, ◌≤◌, refl, true, false, some, List, [], ◌∷◌,
  ◌==◌, ◌&&◌, map, filter, find, length, contains, arith, update_many,
}
use technova_pos_api.Prelude.Result.{
  ok-injective, or_raise-ok, lit, not_found, or_raise, ok, >>=-eq-ok,
}
use technova_pos_api.Directory.{Directory, User, organization_id}
use technova_pos_api.Inventory.Transfer.{has_duplicates}
use technova_pos_api.Sales.State.{LoyaltyRule}
use technova_pos_api.Loyalty.State.{State}
use technova_pos_api.Loyalty.Rules.{
  update_rule, NewRule, RuleChange, deactivate, active_in, activates, make_room, changed,
  create_rule,
}

abbrev pub active_rules : ℕ → List LoyaltyRule → ℕ
active_rules org rules = length (filter (active_in org) rules)

abbrev pub rule_ids : List LoyaltyRule → List ℕ
rule_ids = map (λ r. r.id)

pub record IsSingle (rules : List LoyaltyRule) : Type 0 where
  pub single : (org : ℕ) → active_rules org rules ≤ 1
  pub unique : has_duplicates (rule_ids rules) ≡ false

active_rules-deactivate :
    (org q : ℕ) (rules : List LoyaltyRule)
    → (active_rules org (update_many (active_in org) deactivate rules) ≡ 0)
      × (active_rules q (update_many (active_in org) deactivate rules) ≤ active_rules q rules)
active_rules-deactivate org q [] = ground arith
active_rules-deactivate org q (r ∷ rs) = ground (arith, active_rules-deactivate org q rs)

rule_ids-update_many :
    (test : LoyaltyRule → Bool) (f : LoyaltyRule → LoyaltyRule) (rules : List LoyaltyRule)
    → ((r : LoyaltyRule) → (f r).id ≡ r.id)
    → rule_ids (update_many test f rules) ≡ rule_ids rules
rule_ids-update_many test f [] same = refl
rule_ids-update_many test f (r ∷ rs) same =
    ground (arith, same r, rule_ids-update_many test f rs same)

-- A new rule takes the place of the active one: every organization has at most one active rule
-- afterwards, if it had before, and the ids stay distinct. The database gives an id not in use.
pub create_rule-IsSingle :
    (dir : Directory) (new_id : ℕ) (actor : User) (dto : NewRule) (st : State) {st' : State}
    → create_rule dir new_id actor dto st ≡ ok st'
    → contains new_id (rule_ids st.rules) ≡ false
    → IsSingle st.rules
    → IsSingle st'.rules
unfolding create_rule has_duplicates
create_rule-IsSingle dir new_id actor dto st {st'} e fresh h =
    let (org, known, e1) = >>=-eq-ok (organization_id dir actor.id) _ e in
    let same = rule_ids-update_many (active_in org) deactivate st.rules (λ r. refl) in
    record {
      single = λ q. ground (arith, active_rules-deactivate org q st.rules, h.single q);
      unique = ground (arith, same, h.unique);
    }

module _ (org id : ℕ) (dto : RuleChange) where
  abbrev updated : List LoyaltyRule → List LoyaltyRule
  updated rules = update_many (λ r. r.id == id) (changed dto) (make_room org id dto rules)

  -- Rows that do not include the rule.
  active_rules-absent :
      (q : ℕ) (rules : List LoyaltyRule)
      → contains id (rule_ids rules) ≡ false
      → (active_rules q (updated rules) ≤ active_rules q rules)
        × (activates dto ≡ true → active_rules org (updated rules) ≡ 0)
  active_rules-absent q [] new = ground arith
  active_rules-absent q (r ∷ rs) new = ground (arith, active_rules-absent q rs)

  find-absent :
      (rules : List LoyaltyRule)
      → contains id (rule_ids rules) ≡ false
      → find (λ x. x.id == id && x.organization == org) rules ≡ none
  find-absent [] new = refl
  find-absent (r ∷ rs) new = ground (arith, find-absent rs)

  active_rules-idle :
      (q : ℕ) (rules : List LoyaltyRule)
      → activates dto ≡ false
      → active_rules q (updated rules) ≤ active_rules q rules
  active_rules-idle q [] idle = ground arith
  active_rules-idle q (r ∷ rs) idle = ground (arith, active_rules-idle q rs idle)

  active_rules-elsewhere :
      (q : ℕ) (rules : List LoyaltyRule) {r : LoyaltyRule}
      → find (λ x. x.id == id && x.organization == org) rules ≡ some r
      → has_duplicates (rule_ids rules) ≡ false
      → (q == org) ≡ false
      → active_rules q (updated rules) ≤ active_rules q rules
  unfolding has_duplicates
  active_rules-elsewhere q [] e nodup other = cc
  active_rules-elsewhere q (x ∷ xs) {r} e nodup other =
      ground (arith, active_rules-absent q xs, find-absent xs, active_rules-elsewhere q xs {r = r})

  active_rules-here :
      (rules : List LoyaltyRule) {r : LoyaltyRule}
      → find (λ x. x.id == id && x.organization == org) rules ≡ some r
      → has_duplicates (rule_ids rules) ≡ false
      → activates dto ≡ true
      → active_rules org (updated rules) ≤ 1
  unfolding has_duplicates
  active_rules-here [] e nodup act = cc
  active_rules-here (x ∷ xs) {r} e nodup act =
      ground (arith, active_rules-absent org xs, find-absent xs, active_rules-here xs {r = r})

  active_rules-updated :
      (q : ℕ) (rules : List LoyaltyRule) {r : LoyaltyRule}
      → find (λ x. x.id == id && x.organization == org) rules ≡ some r
      → has_duplicates (rule_ids rules) ≡ false
      → active_rules q rules ≤ 1
      → active_rules q (updated rules) ≤ 1
  active_rules-updated q rules {r} e nodup h = elim (Bool-cases (activates dto)) [
    | inr idle ↦ omega (arith, active_rules-idle q rules idle, h)
    | inl act ↦ elim (Bool-cases (q == org)) [
      | inr other ↦ omega (arith, active_rules-elsewhere q rules {r = r} e nodup other, h)
      | inl here ↦
          let same : q ≡ org = ground (arith, here) in
          rw same (active_rules-here rules {r = r} e nodup act)
    ]
  ]

-- However a rule is changed, every organization has at most one active rule afterwards, if it had
-- before, and the ids stay distinct.
pub update_rule-IsSingle :
    (dir : Directory) (actor : User) (id : ℕ) (dto : RuleChange) (st : State) {st' : State}
    → update_rule dir actor id dto st ≡ ok st'
    → IsSingle st.rules
    → IsSingle st'.rules
unfolding update_rule
update_rule-IsSingle dir actor id dto st {st'} e h =
    let (org, known, e1) = >>=-eq-ok (organization_id dir actor.id) _ e in
    let test = λ (r : LoyaltyRule). r.id == id && r.organization == org in
    let (r, is_r, e2) =
      >>=-eq-ok (or_raise (find test st.rules) (not_found (lit "Loyalty rule not found."))) _ e1 in
    let found = or_raise-ok (find test st.rules) _ is_r in
    let same = ap (λ (x : State). x.rules) (ok-injective e2) in
    let room = make_room org id dto st.rules in
    rw (← same) (record {
      single = λ q. active_rules-updated org id dto q st.rules found h.unique (h.single q);
      unique =
          rw
            (
              rule_ids-update_many (λ x. x.id == id) (changed dto) room (λ x. refl),
              rule_ids-update_many (λ x. activates dto && active_in org x && not (x.id == id))
                  deactivate st.rules (λ x. refl),
            )
            h.unique;
    })
