-- ===== src/Discounts/Chosen.antt =====
-- The discount rule that a sale takes for a product, among the rules that `DiscountsService` keeps.
use technova_pos_api.Prelude.Int.{◌≤ℤ◌}
use technova_pos_api.Sales.Prices.{first-filter}
use technova_pos_api.Discounts.Priority.{
  by_priority-IsBest, by_priority, is_included, is_running_for, discount_rules, IsListed, IsBest,
}
use mathlib.Core.Path.{subst}
use technova_pos_api.Sales.Pricing.{
  first, gross_of, create_discount, PricedProduct, is_eligible, prepare_line, DiscountRule,
}
use technova_pos_api.Discounts.State.{Rule}
use technova_pos_api.Discounts.Lifecycle.{priced, lifecycle_status}
use technova_pos_api.Prelude.{
  if◌then◌else◌, [], arith, map, ◌∷◌, List, some, none, Option, ◌&&◌, false, true, Bool, inr, inl,
  ◌⊎◌, ◌∙◌, ap, refl, ◌≡◌, ℕ, All, filter, find, Bool-cases,
}
use mathlib.Core.Option

-- The rules that a filter leaves, and the tests of both.
filtered_step :
    (keep : Rule → Bool) (r x : Rule) (xs : List Rule) (b : Bool)
    → keep x ≡ b
    → (IsListed r (filter keep xs) → (keep r ≡ true) × IsListed r xs)
    → IsListed r (if b then x ∷ filter keep xs else filter keep xs)
    → (keep r ≡ true) × ((x ≡ r) ⊎ IsListed r xs)
filtered_step keep r x xs true kept rest (inl is_r) =
    (subst (λ (y : Rule). keep y ≡ true) is_r kept, inl is_r)
filtered_step keep r x xs true kept rest (inr later) =
    let (h, listed) = rest later in (h, inr listed)
filtered_step keep r x xs false dropped rest later = let (h, listed) = rest later in (h, inr listed)

filter-IsListed :
    (keep : Rule → Bool) (r : Rule) (rules : List Rule)
    → IsListed r (filter keep rules)
    → (keep r ≡ true) × IsListed r rules
filter-IsListed keep r [] h = elim h [ ]
filter-IsListed keep r (x ∷ xs) h =
    filtered_step keep r x xs (keep x) refl (filter-IsListed keep r xs) h

All-filter :
    (P : Rule → Type 0) (Q : Rule → Type 0) (keep : Rule → Bool)
    → ((x : Rule) → keep x ≡ true → P x → Q x)
    → ((x : Rule) → keep x ≡ false → Q x)
    → (rules : List Rule) → All P (filter keep rules)
    → All Q rules
All-filter P Q keep kept dropped [] h = tt
All-filter P Q keep kept dropped (x ∷ xs) h = elim (Bool-cases (keep x)) [
  | inl is_kept ↦
      (let (first, rest) =
          subst (λ b. All P (if b then x ∷ filter keep xs else filter keep xs)) is_kept h in
        (kept x is_kept first, All-filter P Q keep kept dropped xs rest))
  | inr is_dropped ↦
      (let rest =
          subst (λ b. All P (if b then x ∷ filter keep xs else filter keep xs)) is_dropped h in
        (dropped x is_dropped, All-filter P Q keep kept dropped xs rest))
]

filter-IsBest :
    (keep test goal : Rule → Bool)
    → ((r : Rule) → goal r ≡ (keep r && test r))
    → (rules : List Rule) (found : Option Rule) → IsBest test (filter keep rules) found
    → IsBest goal rules found
filter-IsBest keep test goal both rules none best =
    All-filter (λ (r : Rule). test r ≡ false) (λ (r : Rule). goal r ≡ false) keep
      (λ r kept h. ground (arith, both r, h)) (λ r dropped. ground (arith, both r, dropped)) rules
      best
filter-IsBest keep test goal both rules (some r) best =
    let (kept, listed) = filter-IsListed keep r rules best.1 in
    (
      ground (arith, both r, kept, best.0),
      listed,
      All-filter (λ (x : Rule). test x ≡ true → x.priority ≤ℤ r.priority)
          (λ (x : Rule). goal x ≡ true → x.priority ≤ℤ r.priority) keep
          (λ x is_kept le h. le (ground (arith, both x, h)))
          (λ x dropped h. ground (arith, both x, h, dropped)) rules best.2,
    )

find-map :
    (test : DiscountRule → Bool) (rs : List Rule)
    → find test (map priced rs) ≡ Option.map priced (find (λ (r : Rule). test (priced r)) rs)
find-map test [] = refl
find-map test (r ∷ rs) = elim (Bool-cases (test (priced r))) [
  | inl met ↦ rw met refl
  | inr unmet ↦ rw unmet (find-map test rs)
]

-- A rule that a sale reads and lets through is one that is shown as active.
is_running_for_lem :
    (now p quantity : ℕ) (r : Rule)
    → is_running_for now p quantity r ≡ (is_included p r && is_eligible now quantity (priced r))
unfolding lifecycle_status is_eligible
is_running_for_lem now p quantity r = ground arith

abbrev rule_id : Option DiscountRule → Option ℕ
rule_id o = elim o [ none ↦ none | some r ↦ some r.id ]

rule_id-priced :
    (found : Option Rule)
    → rule_id (Option.map priced found) ≡ Option.map (λ (r : Rule). r.id) found
rule_id-priced none = refl
rule_id-priced (some r) = refl

-- The rule that a sale takes for a product, and by which it computes the discount of the line, is
-- one that the dashboard shows as active at that time: of the rules of the product that are shown
-- as active and have the quantity within their bounds it is one of the highest priority, and it is
-- missing only if there is none. The product comes with the rules of the table that stand for it.
pub prepare_line-IsBest :
    (now p quantity : ℕ) (rules : List Rule) (product : PricedProduct)
    → product.rules ≡ discount_rules p rules
    → (found : Option Rule) × IsBest (is_running_for now p quantity) rules found
      × ((prepare_line now product quantity).rule ≡ Option.map (λ (r : Rule). r.id) found)
      × ((prepare_line now product quantity).discount
          ≡ create_discount
              (Option.map priced found)
              (gross_of product.selling_price quantity)
              quantity)
unfolding prepare_line discount_rules
prepare_line-IsBest now p quantity rules product same =
    let kept = filter (is_included p) rules in
    let passes = λ (r : Rule). is_eligible now quantity (priced r) in
    let found = find passes (by_priority kept) in
    let gross = gross_of product.selling_price quantity in
    let chosen : first (filter (is_eligible now quantity) product.rules) ≡ Option.map priced found =
      ap (λ rs. first (filter (is_eligible now quantity) rs)) same
      ∙ first-filter (is_eligible now quantity) (map priced (by_priority kept))
      ∙ find-map (is_eligible now quantity) (by_priority kept) in
    (
      found,
      filter-IsBest (is_included p) passes (is_running_for now p quantity)
          (is_running_for_lem now p quantity) rules found (by_priority-IsBest passes kept),
      ap rule_id chosen ∙ rule_id-priced found,
      ap (λ o. create_discount o gross quantity) chosen,
    )
