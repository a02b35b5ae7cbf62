-- ===== src/Sales/State.antt =====
-- The tables that the till reads and writes (prisma/schema.prisma), and the request
-- (src/modules/sales/dto/sale.dto.ts).
use technova_pos_api.Prelude.{ℕ, Option, List, Bool}
use technova_pos_api.Prelude.Int.{ℤ}
use technova_pos_api.Prelude.Text.{Text}
use technova_pos_api.Calendar.{CalendarDate}
use technova_pos_api.Directory.{Directory, RecordStatus, AuditEvent}
use technova_pos_api.Stock.{Stock}
use technova_pos_api.Payment.{PaymentMethod, PaymentStatus}
use technova_pos_api.Credit.State.{CreditStatus}
use technova_pos_api.Sales.Pricing.{PricedProduct, PricedLine}

-- What a sale only reads. -------------------------------------------------------------------

pub record Customer : Type 0 where
  pub id : ℕ
  pub organization : ℕ
  pub status : RecordStatus
  -- in cents
  pub credit_limit : ℕ

pub record WarrantyPolicy : Type 0 where
  pub id : ℕ
  pub duration_months : ℕ

-- A product with its prices and its first active warranty policy.
pub record ShopProduct : Type 0 where
  pub id : ℕ
  pub organization : ℕ
  pub status : RecordStatus
  pub track_serials : Bool
  pub priced : PricedProduct
  pub warranty_policy : Option WarrantyPolicy

-- Amounts in cents.
pub record LoyaltyRule : Type 0 where
  pub id : ℕ
  pub organization : ℕ
  pub status : RecordStatus
  pub spend_amount : ℕ
  pub points_awarded : ℕ
  pub redemption_value : ℕ

-- The loyalty rules stand with the last updated one first.
pub record Shop : Type 0 where
  pub directory : Directory
  pub customers : List Customer
  pub products : List ShopProduct
  pub loyalty_rules : List LoyaltyRule

-- The request. -------------------------------------------------------------------------------

pub record SaleItemInput : Type 0 where
  pub product : ℕ
  pub quantity : ℕ
  pub serial : Option Text

-- Amounts in cents.
pub record SalePayment : Type 0 where
  pub method : PaymentMethod
  pub amount : ℕ

pub record CreditInstallmentInput : Type 0 where
  pub due_date : ℕ
  pub amount : ℕ

pub record CreditTerms : Type 0 where
  pub due_date : ℕ
  pub installments : Option (List CreditInstallmentInput)

pub record SaleRequest : Type 0 where
  pub branch : ℕ
  pub customer : Option ℕ
  pub items : List SaleItemInput
  pub payments : List SalePayment
  pub loyalty_points : ℕ
  pub credit : Option CreditTerms

-- What a sale writes. ------------------------------------------------------------------------

-- `enum SaleStatus`
pub data SaleStatus : Type 0 where
  draft completed voided partially_refunded refunded : SaleStatus

-- Amounts are exact, in the units of `Pricing`.
pub record Sale : Type 0 where
  pub id : ℕ
  pub branch : ℕ
  pub customer : Option ℕ
  pub created_by : ℕ
  pub status : SaleStatus
  pub subtotal : ℕ
  pub discount_total : ℕ
  pub tax_total : ℕ
  pub total : ℕ
  pub paid_total : ℕ
  pub balance_due : ℤ
  pub loyalty_points_redeemed : ℕ
  pub loyalty_redemption_value : ℕ
  pub completed_at : ℕ

-- A line of a sale is known by the sale and its place in it.
pub record SaleItem : Type 0 where
  pub sale : ℕ
  pub place : ℕ
  pub unit : Option ℕ
  pub line : PricedLine

pub record DiscountApplication : Type 0 where
  pub rule : ℕ
  pub sale : ℕ
  pub place : ℕ
  pub amount : ℕ

-- The amount in cents.
pub record PaymentRow : Type 0 where
  pub sale : ℕ
  pub method : PaymentMethod
  pub status : PaymentStatus
  pub amount : ℕ
  pub paid_at : ℕ

-- The balance in cents.
pub record StoreCreditAccount : Type 0 where
  pub customer : ℕ
  pub balance : ℕ

pub record LoyaltyAccount : Type 0 where
  pub customer : ℕ
  pub points : ℕ

-- A transaction of either kind of account.
pub record AccountEntry : Type 0 where
  pub customer : ℕ
  pub amount : ℤ
  pub sale : ℕ

pub record CreditAgreement : Type 0 where
  pub sale : ℕ
  pub customer : ℕ
  pub principal : ℕ
  pub outstanding : ℕ
  pub due_date : ℕ
  pub status : CreditStatus
  -- number, exact amount due, due date
  pub installments : List (ℕ × ℕ × ℕ)

pub record Warranty : Type 0 where
  pub policy : ℕ
  pub unit : ℕ
  pub sale : ℕ
  pub place : ℕ
  pub customer : Option ℕ
  pub starts_at : CalendarDate
  pub ends_at : CalendarDate

-- The event `ACTIVATED_AT_SALE` of the warranty of a unit.
pub record WarrantyEvent : Type 0 where
  pub unit : ℕ
  pub sale : ℕ
  pub place : ℕ
  pub occurred_at : CalendarDate

-- The part of a receipt's snapshot that is computed.
pub record Receipt : Type 0 where
  pub sale : ℕ
  pub lines : List PricedLine
  pub amount_due_after_loyalty : ℕ
  pub balance_due : ℤ

pub record State : Type 0 where
  pub stock : Stock
  pub sales : List Sale
  pub items : List SaleItem
  pub discounts : List DiscountApplication
  pub payments : List PaymentRow
  pub store_credit : List StoreCreditAccount
  pub store_credit_entries : List AccountEntry
  pub agreements : List CreditAgreement
  pub loyalty : List LoyaltyAccount
  pub loyalty_entries : List AccountEntry
  pub warranties : List Warranty
  pub warranty_events : List WarrantyEvent
  pub receipts : List Receipt
  pub audits : List AuditEvent
