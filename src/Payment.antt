-- ===== src/Payment.antt =====
-- How money is paid (prisma/schema.prisma: PaymentMethod, PaymentStatus), shared by the services
-- that take and give money.
use technova_pos_api.Prelude.{Bool, true, false}

-- `enum PaymentMethod`
pub data PaymentMethod : Type 0 where
  cash card bank_transfer mobile_wallet credit other store_credit : PaymentMethod

-- `enum PaymentStatus`
pub data PaymentStatus : Type 0 where
  pending completed failed voided refunded : PaymentStatus

abbrev pub is_credit : PaymentMethod → Bool
is_credit PaymentMethod.credit = true
is_credit _ = false

abbrev pub is_store_credit : PaymentMethod → Bool
is_store_credit PaymentMethod.store_credit = true
is_store_credit _ = false
