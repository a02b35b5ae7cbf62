-- ===== src/Discounts/State.antt =====
-- The tables of discount rules and of their uses (prisma/schema.prisma), and the requests
-- (src/modules/discounts/dto/discount.dto.ts). Values are ten-thousandths, quantities thousandths,
-- and instants milliseconds.
use technova_pos_api.Prelude.Int.{ℤ}
use technova_pos_api.Sales.Pricing.{DiscountType}
use technova_pos_api.Sales.State.{SaleStatus}
use technova_pos_api.Prelude.Text.{Text}
use technova_pos_api.Directory.{RecordStatus, AuditEvent}
use technova_pos_api.Prelude.{map, List, Option, Bool, ℕ}

pub record Rule : Type 0 where
  pub id : ℕ
  pub organization : ℕ
  pub product : Option ℕ
  pub code : Option Text
  pub name : Text
  pub description : Option Text
  pub kind : DiscountType
  pub value : ℕ
  pub minimum_quantity : ℕ
  pub maximum_quantity : Option ℕ
  pub starts_at : Option ℕ
  pub ends_at : Option ℕ
  pub priority : ℤ
  pub stackable : Bool
  pub notify_email : Bool
  pub notify_whatsapp : Bool
  pub notified_at : Option ℕ
  pub status : RecordStatus

-- A use of a rule on a sale line, with what the queries read of the line and its sale.
pub record Application : Type 0 where
  pub rule : ℕ
  pub amount : ℕ
  pub quantity : ℕ
  pub line_total : ℕ
  pub sale : ℕ
  pub sale_status : SaleStatus

pub record State : Type 0 where
  pub rules : List Rule
  pub applications : List Application
  pub audits : List AuditEvent

-- `CreateDiscountRuleDto`
pub record NewRule : Type 0 where
  pub product : Option ℕ
  pub code : Option Text
  pub name : Text
  pub description : Option Text
  pub kind : DiscountType
  pub value : ℕ
  pub minimum_quantity : ℕ
  pub maximum_quantity : Option ℕ
  pub starts_at : Option ℕ
  pub ends_at : Option ℕ
  pub priority : Option ℤ
  pub stackable : Option Bool
  pub notify_email : Option Bool
  pub notify_whatsapp : Option Bool

-- `UpdateDiscountRuleDto`; `some none` is a `null`.
pub record RuleChange : Type 0 where
  pub product : Option (Option ℕ)
  pub code : Option Text
  pub name : Option Text
  pub description : Option Text
  pub kind : Option DiscountType
  pub value : Option ℕ
  pub minimum_quantity : Option ℕ
  pub maximum_quantity : Option (Option ℕ)
  pub starts_at : Option ℕ
  pub ends_at : Option ℕ
  pub priority : Option ℤ
  pub stackable : Option Bool
  pub notify_email : Option Bool
  pub notify_whatsapp : Option Bool
  pub status : Option RecordStatus

abbrev pub rule_ids : List Rule → List ℕ
rule_ids = map (λ (r : Rule). r.id)
