-- ===== src/Discounts/Priority.antt =====
-- The discount rules of a product, as `SalesService.create` reads them from the table, and the one
-- of the highest priority among them.
-- `discountRules: { where: { status: ACTIVE } }` of a product in `SalesService.create`.
use technova_pos_api.Sales.Pricing.{up_to, DiscountRule}
use technova_pos_api.Prelude.Int.{◌≤ℤ◌, ltb_ℤ}
use technova_pos_api.Discounts.Lifecycle.{priced, lifecycle_status, is_running}
use technova_pos_api.Directory.{is_active}
use mathlib.Core.Path.{subst}
use technova_pos_api.Discounts.State.{Rule}
use technova_pos_api.Prelude.{
  if◌then◌else◌, [], arith, map, ◌∷◌, List, some, none, Option, ◌&&◌, false, true, Bool, inr, inl,
  ◌⊎◌, sym, refl, ◌≡◌, ℕ, All-find, All-map, All, filter, find, Bool-cases, ltb_false→le, ltb→lt,
  ◌==◌, leb,
}

abbrev pub belongs_to : ℕ → Option ℕ → Bool
belongs_to p none = false
belongs_to p (some q) = q == p

abbrev pub is_included : ℕ → Rule → Bool
is_included p r = belongs_to p r.product && is_active r.status

-- `orderBy: { priority: 'desc' }`; the database may put rules of one priority in another order.
unfoldable pub place : Rule → List Rule → List Rule
place r [] = r ∷ []
place r (x ∷ xs) = if ltb_ℤ r.priority x.priority then x ∷ place r xs else r ∷ x ∷ xs

unfoldable pub by_priority : List Rule → List Rule
by_priority [] = []
by_priority (r ∷ rs) = place r (by_priority rs)

unfoldable pub discount_rules : ℕ → List Rule → List DiscountRule
discount_rules p rules = map priced (by_priority (filter (is_included p) rules))

-- The dashboard shows the rule as active, and it is one of the product, with the quantity within
-- its bounds.
abbrev pub is_running_for : ℕ → ℕ → ℕ → Rule → Bool
is_running_for now p quantity r =
    is_running (lifecycle_status r now)
    && belongs_to p r.product
    && leb r.minimum_quantity quantity
    && up_to r.maximum_quantity quantity

abbrev pub IsListed : Rule → List Rule → Type 0
IsListed r [] = ⊥
IsListed r (x ∷ xs) = (x ≡ r) ⊎ IsListed r xs

-- A rule of the table that meets the test, where none that does has a higher priority; or no rule
-- meets it.
abbrev pub IsBest : (Rule → Bool) → List Rule → Option Rule → Type 0
IsBest test rules none = All (λ (r : Rule). test r ≡ false) rules
IsBest test rules (some best) =
    (test best ≡ true)
    × IsListed best rules
    × All (λ (r : Rule). test r ≡ true → r.priority ≤ℤ best.priority) rules

abbrev IsOrdered : List Rule → Type 0
IsOrdered [] = Unit
IsOrdered (x ∷ xs) = All (λ (r : Rule). r.priority ≤ℤ x.priority) xs × IsOrdered xs

All-place : (P : Rule → Type 0) (r : Rule) (xs : List Rule) → P r → All P xs → All P (place r xs)
unfolding place
All-place P r [] h hs = (h, tt)
All-place P r (x ∷ xs) h hs = elim (Bool-cases (ltb_ℤ r.priority x.priority)) [
  | inl lower ↦ rw lower (hs.0, All-place P r xs h hs.1)
  | inr upper ↦ rw upper (h, hs)
]

place-IsOrdered : (r : Rule) (xs : List Rule) → IsOrdered xs → IsOrdered (place r xs)
unfolding place
place-IsOrdered r [] h = (tt, tt)
place-IsOrdered r (x ∷ xs) h = elim (Bool-cases (ltb_ℤ r.priority x.priority)) [
  | inl lower ↦ rw lower (
    All-place (λ (y : Rule). y.priority ≤ℤ x.priority) r xs (omega (arith, ltb→lt _ _ lower)) h.0,
    place-IsOrdered r xs h.1,
  )
  | inr upper ↦
      (let above : x.priority ≤ℤ r.priority = ltb_false→le _ _ upper in
        rw upper (
          (
            above,
            All-map (λ (y : Rule) (le : y.priority ≤ℤ x.priority). omega (arith, le, above)) xs h.0,
          ),
          h,
        ))
]

by_priority-IsOrdered : (rules : List Rule) → IsOrdered (by_priority rules)
unfolding by_priority
by_priority-IsOrdered [] = tt
by_priority-IsOrdered (r ∷ rs) = place-IsOrdered r (by_priority rs) (by_priority-IsOrdered rs)

-- Of a rule and another one that may be there, the one of higher priority; the rule if they tie.
abbrev better : Rule → Option Rule → Option Rule
better r none = some r
better r (some x) = if ltb_ℤ r.priority x.priority then some x else some r

better-first :
    (r x : Rule) (xs : List Rule) (test : Rule → Bool) (found : Option Rule)
    → find test (x ∷ xs) ≡ found
    → ltb_ℤ r.priority x.priority ≡ false
    → IsOrdered (x ∷ xs)
    → better r found ≡ some r
better-first r x xs test none e upper ordered = refl
better-first r x xs test (some y) e upper ordered =
    let below : y.priority ≤ℤ x.priority =
      All-find (λ (z : Rule). z.priority ≤ℤ x.priority) test (x ∷ xs) e (omega arith, ordered.0) in
    let above : x.priority ≤ℤ r.priority = ltb_false→le _ _ upper in ground (arith, below, above)

find-place :
    (test : Rule → Bool) (r : Rule) (xs : List Rule)
    → IsOrdered xs
    → find test (place r xs) ≡ (if test r then better r (find test xs) else find test xs)
unfolding place
find-place test r [] ordered = ground arith
find-place test r (x ∷ xs) ordered = elim (Bool-cases (ltb_ℤ r.priority x.priority)) [
  | inl lower ↦ ground (arith, lower, find-place test r xs ordered.1)
  | inr upper ↦ rw (upper, better-first r x xs test (find test (x ∷ xs)) refl upper ordered) refl
]

met_step :
    (test : Rule → Bool) (r x : Rule) (rs : List Rule)
    → test r ≡ true
    → IsBest test rs (some x)
    → IsBest test (r ∷ rs) (better r (some x))
met_step test r x rs met best = elim (Bool-cases (ltb_ℤ r.priority x.priority)) [
  | inl lower ↦ rw lower (best.0, inr best.1, (λ h. omega (arith, ltb→lt _ _ lower), best.2))
  | inr upper ↦
      (let above : x.priority ≤ℤ r.priority = ltb_false→le _ _ upper in
        rw upper (
          met,
          inl refl,
          (
            λ h. omega arith,
            All-map {P = λ (y : Rule). test y ≡ true → y.priority ≤ℤ x.priority}
                {Q = λ (y : Rule). test y ≡ true → y.priority ≤ℤ r.priority}
                (λ y le h. omega (arith, le h, above)) rs best.2,
          ),
        ))
]

step-IsBest :
    (test : Rule → Bool) (r : Rule) (rs : List Rule) (found : Option Rule)
    → IsBest test rs found
    → IsBest test (r ∷ rs) (if test r then better r found else found)
step-IsBest test r rs none best = elim (Bool-cases (test r)) [
  | inl met ↦ rw met (
    met,
    inl refl,
    (
      λ h. omega arith,
      All-map {P = λ (x : Rule). test x ≡ false}
          {Q = λ (x : Rule). test x ≡ true → x.priority ≤ℤ r.priority}
          (λ x h k. ground (arith, h, k)) rs best,
    ),
  )
  | inr unmet ↦ rw unmet (unmet, best)
]
step-IsBest test r rs (some x) best = elim (Bool-cases (test r)) [
  | inl met ↦ rw met (met_step test r x rs met best)
  | inr unmet ↦ rw unmet (best.0, inr best.1, (λ h. ground (arith, h, unmet), best.2))
]

pub by_priority-IsBest :
    (test : Rule → Bool) (rules : List Rule) → IsBest test rules (find test (by_priority rules))
unfolding by_priority
by_priority-IsBest test [] = tt
by_priority-IsBest test (r ∷ rs) =
    subst (IsBest test (r ∷ rs))
      (sym (find-place test r (by_priority rs) (by_priority-IsOrdered rs)))
      (step-IsBest test r rs (find test (by_priority rs)) (by_priority-IsBest test rs))
