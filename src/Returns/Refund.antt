-- ===== src/Returns/Refund.antt =====
-- How `ReturnsService.create` splits what a return is worth, and the rows that give it to the
-- customer.
use technova_pos_api.Prelude.{
  ◌*◌, ℕ, suc, ◌+◌, ◌-◌, ◌/◌, min, Bool, true, false, ◌&&◌, not, Option, none, some, List, [], ◌∷◌,
  ◌==◌, ltb, if◌then◌else◌, String,
}
use technova_pos_api.Prelude.Int.{ℤ, pos, negsuc}
use technova_pos_api.Prelude.Result.{Result, raise_if, ◌>>◌, bad_request, lit}
use technova_pos_api.Payment.{PaymentMethod, PaymentStatus, is_credit}
use technova_pos_api.Sales.Pricing.{cents}
use technova_pos_api.Sales.State.{StoreCreditAccount, LoyaltyAccount}
use technova_pos_api.Returns.State.{State, ReturnRequest, ReturnResolution, RefundPayment}

-- `Math.min(total, balanceDue)`: a balance below zero makes the offset negative.
unfoldable pub credit_offset : ℕ → ℤ → ℤ
credit_offset total (pos due) = pos (min total due)
credit_offset total (negsuc n) = negsuc n

-- `total - creditOffset`
unfoldable pub cash_refund : ℕ → ℤ → ℕ
cash_refund total (pos due) = total - min total due
cash_refund total (negsuc n) = total + suc n

abbrev pub resolution_of : ReturnRequest → ReturnResolution
resolution_of dto = elim dto.resolution [ none ↦ ReturnResolution.original_method | some r ↦ r ]

abbrev pub is_original : ReturnResolution → Bool
is_original ReturnResolution.original_method = true
is_original _ = false

abbrev pub gives_store_credit : ReturnResolution → Bool
gives_store_credit ReturnResolution.store_credit = true
gives_store_credit ReturnResolution.product_exchange = true
gives_store_credit _ = false

abbrev pub gives_points : ReturnResolution → Bool
gives_points ReturnResolution.loyalty_points = true
gives_points _ = false

abbrev pub is_given {ℓ} : {A : Type ℓ} → Option A → Bool
is_given none = false
is_given (some _) = true

abbrev pub refunds_by_credit : Option PaymentMethod → Bool
refunds_by_credit none = false
refunds_by_credit (some m) = is_credit m

-- The guards between the lines and the transaction.
unfoldable pub check_refund : ReturnRequest → Option ℕ → ℕ → Result (Unit {0})
check_refund dto customer cash = do
  raise_if (not (is_original (resolution_of dto)) && not (is_given customer))
      (bad_request (lit "Store credit, points and exchanges require a registered customer."))
  raise_if (ltb 0 cash && is_original (resolution_of dto) && not (is_given dto.refund_method))
      (bad_request (lit "A refund method is required for the refundable paid amount."))
  raise_if (refunds_by_credit dto.refund_method)
      (bad_request (lit "Credit is not a refund payment method."))

-- `Math.floor(amount / 100)`
abbrev pub points_for : ℕ → ℕ
points_for amount = amount / cents (100 * 100)

-- `payment.create`; the guards have made sure of the method.
abbrev pub pays_back : ReturnRequest → ℕ → Bool
pays_back dto cash = ltb 0 cash && is_original (resolution_of dto)

unfoldable pub refund_payments :
    ℕ → ReturnRequest → ℕ → Option PaymentMethod → List RefundPayment → List RefundPayment
refund_payments now dto cash none ps = ps
refund_payments now dto cash (some m) ps =
    if pays_back dto cash
    then record {
      sale = dto.sale;
      method = m;
      status = PaymentStatus.refunded;
      amount = cash;
      paid_at = now;
    }
      ∷ ps
    else ps

-- `storeCreditAccount.upsert` and `loyaltyAccount.upsert` with an increment.
unfoldable pub credit_account : ℕ → ℕ → List StoreCreditAccount → List StoreCreditAccount
credit_account c amount [] = record { customer = c; balance = amount } ∷ []
credit_account c amount (a ∷ rest) =
    if a.customer == c
    then record a { balance = a.balance + amount } ∷ rest
    else a ∷ credit_account c amount rest

unfoldable pub credit_points : ℕ → ℕ → List LoyaltyAccount → List LoyaltyAccount
credit_points c points [] = record { customer = c; points = points } ∷ []
credit_points c points (a ∷ rest) =
    if a.customer == c
    then record a { points = a.points + points } ∷ rest
    else a ∷ credit_points c points rest

abbrev pub credit_reason : ReturnResolution → String
credit_reason ReturnResolution.product_exchange = "PRODUCT_EXCHANGE"
credit_reason _ = "RETURN_STORE_CREDIT"

-- The store credit and the points that a registered customer gets instead of money.
unfoldable pub give_store_credit : ℕ → ReturnResolution → Option ℕ → ℕ → State → State
give_store_credit id resolution none cash st = st
give_store_credit id resolution (some c) cash st =
    if gives_store_credit resolution && ltb 0 cash
    then (record st {
      store_credit = credit_account c cash st.store_credit;
      store_credit_entries =
          record { customer = c; amount = pos cash; reason = credit_reason resolution; return = id }
          ∷ st.store_credit_entries;
    })
    else st

unfoldable pub give_points : ℕ → ReturnResolution → Option ℕ → ℕ → State → State
give_points id resolution none cash st = st
give_points id resolution (some c) cash st =
    if gives_points resolution && ltb 0 cash
    then (record st {
      loyalty = credit_points c (points_for cash) st.loyalty;
      loyalty_entries =
          record {
            customer = c;
            amount = pos (points_for cash);
            reason = "RETURN_REFUND";
            return = id;
          }
          ∷ st.loyalty_entries;
    })
    else st
