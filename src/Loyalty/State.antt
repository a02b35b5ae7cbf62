-- ===== src/Loyalty/State.antt =====
-- The tables that `LoyaltyService` writes (prisma/schema.prisma: LoyaltyRule, LoyaltyAccount,
-- LoyaltyTransaction). The rules and the accounts are those that a sale reads.
use technova_pos_api.Prelude.{ℕ, List}
use technova_pos_api.Prelude.Int.{ℤ}
use technova_pos_api.Prelude.Text.{Text}
use technova_pos_api.Directory.{AuditEvent}
use technova_pos_api.Sales.State.{LoyaltyRule, LoyaltyAccount}

-- A manual change of points, with its reason and the user who made it.
pub record ManualEntry : Type 0 where
  pub customer : ℕ
  pub points : ℤ
  pub reason : Text
  pub user : ℕ

pub record State : Type 0 where
  pub rules : List LoyaltyRule
  pub accounts : List LoyaltyAccount
  pub entries : List ManualEntry
  pub audits : List AuditEvent
