-- ===== src/Loyalty/Tests.antt =====
-- Two rules of an organization, and a customer who loses 30 of 50 points.
use technova_pos_api.Prelude.{ℕ, ◌+◌, ◌≤◌, ◌≡◌, ◌≢◌, refl, none, some, List, [], ◌∷◌, arith, false}
use technova_pos_api.Prelude.Int.{negsuc}
use technova_pos_api.Prelude.Text.{trim, is_space, drop_spaces}
use technova_pos_api.Prelude.Result.{Result, ok, err}
use technova_pos_api.Directory.{Directory, User, RecordStatus, organization_id}
use technova_pos_api.Inventory.Transfer.{has_duplicates}
use technova_pos_api.Sales.State.{Customer}
use technova_pos_api.Sales.Accounts.{points_or_zero}
use technova_pos_api.Loyalty.State.{State}
use technova_pos_api.Loyalty.Rules.{NewRule, RuleChange, create_rule, update_rule}
use technova_pos_api.Loyalty.Points.{PointsChange, adjust_points}
use technova_pos_api.Loyalty.Single.{IsSingle, create_rule-IsSingle, update_rule-IsSingle}
use technova_pos_api.Loyalty.Balance.{adjust_points-points}

abbrev directory : Directory
directory = record {
  members = record { user = 4; organization = 1 } ∷ [];
  branches = [];
  products = [];
}

abbrev admin : User
admin = record { id = 4; super_admin = false }

abbrev members_of_club : List Customer
members_of_club =
    record { id = 7; organization = 1; status = RecordStatus.active; credit_limit = 0 } ∷ []

abbrev start : State
start = record {
  rules =
      record {
        id = 2;
        organization = 1;
        status = RecordStatus.active;
        spend_amount = 10000;
        points_awarded = 1;
        redemption_value = 100;
      }
      ∷ [];
  accounts = record { customer = 7; points = 50 } ∷ [];
  entries = [];
  audits = [];
}

start-IsSingle : IsSingle start.rules
unfolding has_duplicates
start-IsSingle = record { single = λ org. ground arith; unique = refl }

abbrev or_start : Result State → State
or_start (ok st) = st
or_start (err _) = start

abbrev double : NewRule
double = record { spend_amount = 10000; points_awarded = 2; redemption_value = none }

abbrev with_double : State
with_double = or_start (create_rule directory 3 admin double start)

is_created : create_rule directory 3 admin double start ≡ ok with_double
unfolding create_rule organization_id
is_created = refl

create_rule-IsSingle_example : IsSingle with_double.rules
create_rule-IsSingle_example =
    create_rule-IsSingle directory 3 admin double start is_created refl start-IsSingle

abbrev again : RuleChange
again = record {
  spend_amount = none;
  points_awarded = none;
  redemption_value = none;
  status = some RecordStatus.active;
}

abbrev switched : State
switched = or_start (update_rule directory admin 2 again with_double)

is_switched : update_rule directory admin 2 again with_double ≡ ok switched
unfolding create_rule update_rule organization_id
is_switched = refl

with_double-IsSingle : IsSingle with_double.rules
with_double-IsSingle =
    create_rule-IsSingle directory 3 admin double start is_created refl start-IsSingle

update_rule-IsSingle_example : IsSingle switched.rules
update_rule-IsSingle_example =
    update_rule-IsSingle directory admin 2 again with_double is_switched with_double-IsSingle

abbrev penalty : PointsChange
penalty = record { points = negsuc 29; reason = [] }

abbrev punished : State
punished = or_start (adjust_points directory members_of_club admin 7 penalty start)

is_punished : adjust_points directory members_of_club admin 7 penalty start ≡ ok punished
unfolding adjust_points organization_id trim is_space drop_spaces
is_punished = refl

adjust_points-points_example :
    (30 ≤ points_or_zero 7 start.accounts + 0)
    × (points_or_zero 7 punished.accounts + 30 ≡ points_or_zero 7 start.accounts + 0)
    × ((d : ℕ) → 7 ≢ d → points_or_zero d punished.accounts ≡ points_or_zero d start.accounts)
adjust_points-points_example =
    adjust_points-points directory members_of_club admin 7 penalty start is_punished
