-- ===== src/Sales/Customers.antt =====
-- The checks of `SalesService.create` on the customer, the points and the store credit.
use technova_pos_api.Prelude.{
  ℕ, ◌+◌, ◌*◌, Bool, true, false, ◌&&◌, ◌||◌, not, Option, none, some, List, [], ◌∷◌, ◌==◌, ltb,
  if◌then◌else◌, find, filter, contains, sum_of,
}
use technova_pos_api.Prelude.Result.{
  Result, ok, or_raise, raise_if, ◌>>=◌, ◌>>◌, bad_request, not_found, conflict, lit,
}
use technova_pos_api.Directory.{Branch, User, is_active}
use technova_pos_api.Payment.{is_store_credit}
use technova_pos_api.Sales.State.{
  State, Shop, Customer, LoyaltyRule, SaleRequest, SalePayment, StoreCreditAccount, LoyaltyAccount,
}

abbrev pub is_none {ℓ} : {A : Type ℓ} → Option A → Bool
is_none none = true
is_none (some _) = false

-- `branch.findFirst`: an active branch of the organization to which the user is assigned, or any
-- such branch for a super administrator.
abbrev pub may_sell_at : User → ℕ → ℕ → Branch → Bool
may_sell_at actor org id b =
    b.id == id
    && b.organization == org
    && is_active b.status
    && (actor.super_admin || contains actor.id b.users)

-- No customer, the customer found, or the exception.
unfoldable pub find_customer : Shop → ℕ → Option ℕ → Result (Option Customer)
find_customer shop org none = ok none
find_customer shop org (some id) = do
  c ←
      or_raise
        (find (λ c. c.id == id && c.organization == org && is_active c.status) shop.customers)
        (not_found (lit "Customer not found."))
  ok (some c)

abbrev pub active_loyalty_rule : Shop → ℕ → Option LoyaltyRule
active_loyalty_rule shop org =
    find (λ r. r.organization == org && is_active r.status) shop.loyalty_rules

-- `loyaltyRule?.redemptionValuePerPoint ?? 1`, in cents.
abbrev pub redemption_value : Option LoyaltyRule → ℕ
redemption_value none = 100
redemption_value (some r) = r.redemption_value

abbrev pub points_of : ℕ → List LoyaltyAccount → Option ℕ
points_of c [] = none
points_of c (a ∷ rest) = if a.customer == c then some a.points else points_of c rest

abbrev pub balance_of : ℕ → List StoreCreditAccount → Option ℕ
balance_of c [] = none
balance_of c (a ∷ rest) = if a.customer == c then some a.balance else balance_of c rest

-- `!loyaltyAccount || loyaltyAccount.points < requested`
unfoldable pub lacks_points : Option Customer → ℕ → List LoyaltyAccount → Bool
lacks_points none requested accounts = true
lacks_points (some c) requested accounts = elim (points_of c.id accounts) [
  | none ↦ true
  | some points ↦ ltb points requested
]

-- `!account || balance + 0.001 < payment`, in tenths of a cent.
unfoldable pub lacks_store_credit : Option Customer → ℕ → List StoreCreditAccount → Bool
lacks_store_credit none payment accounts = true
lacks_store_credit (some c) payment accounts = elim (balance_of c.id accounts) [
  | none ↦ true
  | some balance ↦ ltb (balance * 10 + 1) (payment * 10)
]

-- The part of the payments that is store credit, in cents.
unfoldable pub store_credit_payment : List SalePayment → ℕ
store_credit_payment ps = sum_of (λ p. p.amount) (filter (λ p. is_store_credit p.method) ps)

unfoldable pub check_customer : Option Customer → SaleRequest → State → Result (Unit {0})
check_customer customer dto st = do
  raise_if (ltb 0 dto.loyalty_points && is_none customer)
      (bad_request (lit "Loyalty point redemption requires a registered customer."))
  raise_if (ltb 0 dto.loyalty_points && lacks_points customer dto.loyalty_points st.loyalty)
      (conflict (lit "The customer has insufficient loyalty points."))
  raise_if (ltb 0 (store_credit_payment dto.payments) && is_none customer)
      (bad_request (lit "Store credit requires a registered customer."))
  raise_if
      (ltb 0 (store_credit_payment dto.payments)
        && lacks_store_credit customer (store_credit_payment dto.payments) st.store_credit)
      (conflict (lit "The customer has insufficient store credit."))
  raise_if (not (is_none dto.credit) && is_none customer)
      (bad_request (lit "A credit sale requires a customer."))
