-- ===== src/Returns/State.antt =====
-- The tables that `ReturnsService.create` reads and writes (prisma/schema.prisma), and the request
-- (src/modules/returns/dto/return.dto.ts). Amounts are exact, in the units of `Sales.Pricing`, and
-- quantities thousandths.
use technova_pos_api.Prelude.{ℕ, Option, List, Bool, true, false, String}
use technova_pos_api.Prelude.Int.{ℤ}
use technova_pos_api.Prelude.Text.{Text}
use technova_pos_api.Directory.{AuditEvent}
use technova_pos_api.Stock.{Stock}
use technova_pos_api.Payment.{PaymentMethod, PaymentStatus}
use technova_pos_api.Credit.State.{CreditStatus, Installment}
use technova_pos_api.Sales.State.{SaleStatus, StoreCreditAccount, LoyaltyAccount}

-- `enum ReturnStatus`
pub data ReturnStatus : Type 0 where
  requested approved completed rejected cancelled : ReturnStatus

-- `enum ReturnResolution`
pub data ReturnResolution : Type 0 where
  original_method store_credit loyalty_points product_exchange : ReturnResolution

-- `enum WarrantyStatus`
pub data WarrantyStatus : Type 0 where
  pending active expired voided claimed : WarrantyStatus

-- The request. -------------------------------------------------------------------------------

pub record ReturnLine : Type 0 where
  pub sale_item : ℕ
  pub quantity : ℕ
  pub condition : Option Text
  pub restock : Option Bool

pub record ReturnRequest : Type 0 where
  pub sale : ℕ
  pub reason : Text
  pub refund_method : Option PaymentMethod
  pub resolution : Option ReturnResolution
  pub items : List ReturnLine

-- The tables. --------------------------------------------------------------------------------

pub record Sale : Type 0 where
  pub id : ℕ
  pub branch : ℕ
  pub customer : Option ℕ
  pub status : SaleStatus
  pub paid_total : ℤ
  pub balance_due : ℤ

pub record SaleItem : Type 0 where
  pub id : ℕ
  pub sale : ℕ
  pub product : ℕ
  pub quantity : ℕ
  pub line_total : ℕ
  pub unit : Option ℕ
  pub warranty : Option ℕ

pub record Return : Type 0 where
  pub id : ℕ
  pub sale : ℕ
  pub refunded_by_payment : Bool
  pub status : ReturnStatus
  pub reason : Text
  pub total : ℕ
  pub resolution : ReturnResolution
  pub store_credit_amount : ℕ
  pub loyalty_points_awarded : ℕ

-- `of` is the return that the item belongs to.
pub record ReturnItem : Type 0 where
  pub of : ℕ
  pub sale_item : ℕ
  pub quantity : ℕ
  pub unit_refund : ℕ
  pub condition : Option Text
  pub restock : Bool

pub record RefundPayment : Type 0 where
  pub sale : ℕ
  pub method : PaymentMethod
  pub status : PaymentStatus
  pub amount : ℕ
  pub paid_at : ℕ

-- A transaction of either kind of account that refers to a return.
pub record ReturnEntry : Type 0 where
  pub customer : ℕ
  pub amount : ℤ
  pub reason : String
  pub return : ℕ

-- The installments stand with the last one first.
pub record Agreement : Type 0 where
  pub id : ℕ
  pub sale : ℕ
  pub principal : ℤ
  pub outstanding : ℕ
  pub status : CreditStatus
  pub installments : List Installment

pub record Warranty : Type 0 where
  pub id : ℕ
  pub status : WarrantyStatus
  pub voided_at : Option ℕ

pub record WarrantyEvent : Type 0 where
  pub warranty : ℕ
  pub kind : String
  pub notes : Text

pub record State : Type 0 where
  pub stock : Stock
  pub sales : List Sale
  pub items : List SaleItem
  pub returns : List Return
  pub return_items : List ReturnItem
  pub payments : List RefundPayment
  pub store_credit : List StoreCreditAccount
  pub store_credit_entries : List ReturnEntry
  pub loyalty : List LoyaltyAccount
  pub loyalty_entries : List ReturnEntry
  pub agreements : List Agreement
  pub warranties : List Warranty
  pub warranty_events : List WarrantyEvent
  pub audits : List AuditEvent

abbrev pub is_completed : ReturnStatus → Bool
is_completed ReturnStatus.completed = true
is_completed _ = false

-- `status: { in: [COMPLETED, PARTIALLY_REFUNDED] }`
abbrev pub is_returnable : SaleStatus → Bool
is_returnable SaleStatus.completed = true
is_returnable SaleStatus.partially_refunded = true
is_returnable _ = false

abbrev pub is_refunded : SaleStatus → Bool
is_refunded SaleStatus.refunded = true
is_refunded _ = false
