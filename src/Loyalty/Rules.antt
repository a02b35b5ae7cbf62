-- ===== src/Loyalty/Rules.antt =====
-- `LoyaltyService.createRule` and `updateRule`.
use technova_pos_api.Prelude.{
  ℕ, Bool, ◌&&◌, not, Option, none, some, List, ◌∷◌, ◌==◌, find, update_many,
}
use technova_pos_api.Prelude.Result.{Result, ok, or_raise, ◌>>=◌, not_found, lit}
use technova_pos_api.Directory.{Directory, User, RecordStatus, is_active, organization_id}
use technova_pos_api.Inventory.State.{audit}
use technova_pos_api.Sales.State.{LoyaltyRule}
use technova_pos_api.Loyalty.State.{State}

-- `CreateLoyaltyRuleDto`, amounts in cents.
pub record NewRule : Type 0 where
  pub spend_amount : ℕ
  pub points_awarded : ℕ
  pub redemption_value : Option ℕ

-- `UpdateLoyaltyRuleDto`
pub record RuleChange : Type 0 where
  pub spend_amount : Option ℕ
  pub points_awarded : Option ℕ
  pub redemption_value : Option ℕ
  pub status : Option RecordStatus

-- `value ?? fallback`, and a column that is left as it is where the value is absent.
abbrev pub or_else {ℓ} : {A : Type ℓ} → A → Option A → A
or_else fallback none = fallback
or_else fallback (some a) = a

abbrev pub deactivate : LoyaltyRule → LoyaltyRule
deactivate r = record r { status = RecordStatus.inactive }

abbrev pub active_in : ℕ → LoyaltyRule → Bool
active_in org r = r.organization == org && is_active r.status

-- `new_id` is the id that the database gives the rule, which is active.
unfoldable pub create_rule : Directory → ℕ → User → NewRule → State → Result State
create_rule dir new_id actor dto st = do
  org ← organization_id dir actor.id
  ok (record st {
    rules =
        record {
          id = new_id;
          organization = org;
          status = RecordStatus.active;
          spend_amount = dto.spend_amount;
          points_awarded = dto.points_awarded;
          redemption_value = or_else 100 dto.redemption_value;
        }
        ∷ update_many (active_in org) deactivate st.rules;
    audits = audit actor "LOYALTY_RULE_CREATED" new_id st.audits;
  })

abbrev pub activates : RuleChange → Bool
activates dto = elim dto.status [ none ↦ Bool.false | some s ↦ is_active s ]

-- The first statement of the transaction, which is run for a rule that becomes active.
abbrev pub make_room : ℕ → ℕ → RuleChange → List LoyaltyRule → List LoyaltyRule
make_room org id dto =
    update_many (λ r. activates dto && active_in org r && not (r.id == id)) deactivate

abbrev pub changed : RuleChange → LoyaltyRule → LoyaltyRule
changed dto r = record r {
  spend_amount = or_else r.spend_amount dto.spend_amount;
  points_awarded = or_else r.points_awarded dto.points_awarded;
  redemption_value = or_else r.redemption_value dto.redemption_value;
  status = or_else r.status dto.status;
}

unfoldable pub update_rule : Directory → User → ℕ → RuleChange → State → Result State
update_rule dir actor id dto st = do
  org ← organization_id dir actor.id
  existing ←
      or_raise (find (λ r. r.id == id && r.organization == org) st.rules)
        (not_found (lit "Loyalty rule not found."))
  ok (record st {
    rules = update_many (λ r. r.id == id) (changed dto) (make_room org id dto st.rules);
    audits = audit actor "LOYALTY_RULE_UPDATED" id st.audits;
  })
