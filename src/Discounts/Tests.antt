-- ===== src/Discounts/Tests.antt =====
-- A started rule that is paused, and a code.
use technova_pos_api.Discounts.Chosen.{prepare_line-IsBest}
use technova_pos_api.Discounts.Priority.{place, by_priority, is_running_for, discount_rules, IsBest}
use technova_pos_api.Discounts.Lifecycle.{is_running, priced, lifecycle_status}
use mathlib.Core.Option
use technova_pos_api.Sales.Pricing.{
  is_eligible, gross_of, create_discount, prepare_line, PricedProduct, DiscountType,
}
use technova_pos_api.Prelude.Text.{
  is_space, drop_spaces, trim, is_digit, is_upper, is_lower, to_upper_char, to_upper, Text,
}
use technova_pos_api.Inventory.Transfer.{has_duplicates}
use technova_pos_api.Discounts.State.{rule_ids, State, RuleChange, Rule}
use technova_pos_api.Discounts.Started.{Step, Run, Run-IsKept, IsKept}
use technova_pos_api.Discounts.Manage.{
  changes_configuration, changed_rule, changed_code, merged_terms, validate, update, starts_after,
}
use technova_pos_api.Discounts.Codes.{IsCode, promotion_code-IsGoodCode, IsGoodCode}
use technova_pos_api.Discounts.Code.{
  squash, is_code_char, drop_dash, strip_dashes, base_code, promotion_code,
}
use technova_pos_api.Directory.{organization_id, RecordStatus, User, Directory}
use technova_pos_api.Prelude.Int.{pos}
use technova_pos_api.Prelude.Result.{Result, err, ok}
use technova_pos_api.Prelude.{List, Option, true, [], arith, ◌∷◌, some, none, false, refl, ◌≡◌}

abbrev directory : Directory
directory = record {
  members = record { user = 4; organization = 1 } ∷ [];
  branches = [];
  products = [];
}

abbrev admin : User
admin = record { id = 4; super_admin = false }

abbrev sale_week : Rule
sale_week = record {
  id = 2;
  organization = 1;
  product = none;
  code = some (b'W' ∷ []);
  name = b'w' ∷ [];
  description = none;
  kind = DiscountType.percentage;
  value = 100000;
  minimum_quantity = 1000;
  maximum_quantity = none;
  starts_at = some 50;
  ends_at = none;
  priority = pos 0;
  stackable = false;
  notify_email = false;
  notify_whatsapp = false;
  notified_at = none;
  status = RecordStatus.active;
}

abbrev start : State
start = record { rules = sale_week ∷ []; applications = []; audits = [] }

abbrev pause : RuleChange
pause = record {
  product = none;
  code = none;
  name = none;
  description = none;
  kind = none;
  value = none;
  minimum_quantity = none;
  maximum_quantity = none;
  starts_at = none;
  ends_at = none;
  priority = none;
  stackable = none;
  notify_email = none;
  notify_whatsapp = none;
  status = some RecordStatus.inactive;
}

abbrev or_start : Result State → State
or_start (ok st) = st
or_start (err _) = start

abbrev paused : State
paused = or_start (update directory 70 71 [] admin 2 pause start)

is_paused : update directory 70 71 [] admin 2 pause start ≡ ok paused
unfolding update organization_id validate merged_terms changed_code changed_rule
    changes_configuration starts_after
is_paused = refl

start_unique : has_duplicates (rule_ids start.rules) ≡ false
unfolding has_duplicates
start_unique = refl

week_started : starts_after 60 sale_week ≡ false
unfolding starts_after
week_started = refl

Run-IsKept_example : IsKept 2 sale_week paused.rules
Run-IsKept_example =
    Run-IsKept directory 60 start 2 sale_week
      (Run.next 70 Run.here (omega arith) (Step.updating 71 [] admin 2 pause is_paused))
      start_unique refl week_started

-- A rule without a product, and two of the lamp.
abbrev lamp_week : Rule
lamp_week = record sale_week { id = 3; product = some 5; priority = pos 1 }

abbrev lamp_day : Rule
lamp_day = record sale_week { id = 4; product = some 5; priority = pos 2; starts_at = some 70 }

abbrev table : List Rule
table = sale_week ∷ lamp_week ∷ lamp_day ∷ []

abbrev lamp : PricedProduct
lamp = record { id = 5; selling_price = 90000; tax_rate = 0; rules = discount_rules 5 table }

-- The rule without a product is shown as active, but the lamp does not get it.
rules_of_lamp :
    (is_running (lifecycle_status sale_week 60) ≡ true)
    × ((prepare_line 60 lamp 1000).rule ≡ some 3)
    × ((prepare_line 70 lamp 1000).rule ≡ some 4)
unfolding lifecycle_status prepare_line discount_rules by_priority place is_eligible
rules_of_lamp = (refl, refl, refl)

prepare_line-IsBest_example :
    (found : Option Rule) × IsBest (is_running_for 60 5 1000) table found
    × ((prepare_line 60 lamp 1000).rule ≡ Option.map (λ (r : Rule). r.id) found)
    × ((prepare_line 60 lamp 1000).discount
        ≡ create_discount (Option.map priced found) (gross_of 90000 1000) 1000)
prepare_line-IsBest_example = prepare_line-IsBest 60 5 1000 table lamp refl

abbrev digits : Text
digits = b'1' ∷ b'a' ∷ b'2' ∷ b'b' ∷ b'3' ∷ b'4' ∷ []

digits-IsCode : IsCode (to_upper digits)
unfolding to_upper to_upper_char is_lower is_code_char is_upper is_digit
digits-IsCode = (refl, (refl, (refl, (refl, (refl, (refl, tt))))))

promotion_code-IsGoodCode_example :
    IsGoodCode (promotion_code digits 1 none start.rules (b'w' ∷ []) none)
promotion_code-IsGoodCode_example =
    promotion_code-IsGoodCode digits 1 none start.rules (b'w' ∷ []) none refl digits-IsCode

-- The code of the rule is taken, so that the new one gets the random part.
w_is_taken :
    promotion_code digits 1 none start.rules (b'w' ∷ []) none
    ≡ b'W' ∷ b'-' ∷ b'1' ∷ b'A' ∷ b'2' ∷ b'B' ∷ b'3' ∷ b'4' ∷ []
unfolding promotion_code base_code strip_dashes drop_dash squash to_upper to_upper_char is_lower
    trim drop_spaces is_space is_code_char is_upper is_digit
w_is_taken = refl
