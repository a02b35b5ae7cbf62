-- ===== src/Credit/State.antt =====
-- The tables that `CreditService` writes (prisma/schema.prisma: CreditAgreement,
-- CreditInstallment, CreditPaymentAllocation, Payment, and two columns of Sale).
use technova_pos_api.Prelude.{ℕ, ◌-◌, Option, List}
use technova_pos_api.Prelude.Int.{ℤ}
use technova_pos_api.Payment.{PaymentMethod, PaymentStatus}
use technova_pos_api.Directory.{AuditEvent}

-- `enum CreditStatus`
pub data CreditStatus : Type 0 where
  active paid overdue defaulted cancelled : CreditStatus

-- `enum InstallmentStatus`
pub data InstallmentStatus : Type 0 where
  pending partially_paid paid overdue waived : InstallmentStatus

pub record Installment : Type 0 where
  pub id : ℕ
  pub amount_due : ℕ
  pub amount_paid : ℕ
  pub due_date : ℕ
  pub status : InstallmentStatus
  pub paid_at : Option ℕ

-- The installments stand in the order of their numbers; `organization` is the customer's.
pub record Agreement : Type 0 where
  pub id : ℕ
  pub organization : ℕ
  pub sale : ℕ
  pub outstanding : ℕ
  pub due_date : ℕ
  pub status : CreditStatus
  pub installments : List Installment

pub record Payment : Type 0 where
  pub id : ℕ
  pub method : PaymentMethod
  pub status : PaymentStatus
  pub amount : ℕ
  pub paid_at : ℕ

pub record Allocation : Type 0 where
  pub agreement : ℕ
  pub installment : ℕ
  pub payment : ℕ
  pub amount : ℕ

pub record SaleBalance : Type 0 where
  pub id : ℕ
  pub paid_total : ℤ
  pub balance_due : ℤ

pub record State : Type 0 where
  pub agreements : List Agreement
  pub payments : List Payment
  pub allocations : List Allocation
  pub sales : List SaleBalance
  pub audits : List AuditEvent

-- What is still owed; an installment that is overpaid owes nothing.
abbrev pub owed : Installment → ℕ
owed i = i.amount_due - i.amount_paid
