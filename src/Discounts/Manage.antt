-- ===== src/Discounts/Manage.antt =====
-- `DiscountsService.create`, `update` and `remove`, with `validate`.
use technova_pos_api.Inventory.State.{audit}
use technova_pos_api.Loyalty.Rules.{or_else}
use technova_pos_api.Discounts.Code.{promotion_code, is_taken}
use technova_pos_api.Sales.Pricing.{DiscountType}
use technova_pos_api.Prelude.Text.{trim, Text}
use technova_pos_api.Discounts.State.{State, RuleChange, Rule, NewRule, Application}
use technova_pos_api.Directory.{organization_id, RecordStatus, find_product, User, Directory}
use technova_pos_api.Prelude.Int.{pos}
use technova_pos_api.Prelude.Result.{
  conflict, lit, or_raise, not_found, bad_request, raise_if, Result, ok,
}
use technova_pos_api.Prelude.{
  if◌then◌else◌, [], ◌∷◌, List, some, none, Option, ◌||◌, ◌&&◌, not, false, true, Bool, ◌%◌, ◌*◌, ℕ,
  update_many, filter, any, find, ◌==◌, leb, ltb,
}
use technova_pos_api.Prelude.Result.{◌>>=◌, ◌>>◌}

-- What `validate` reads of a request.
pub record Terms : Type 0 where
  pub kind : DiscountType
  pub value : ℕ
  pub minimum_quantity : ℕ
  pub maximum_quantity : Option ℕ
  pub starts_at : Option ℕ
  pub ends_at : Option ℕ

abbrev pub is_percentage : DiscountType → Bool
is_percentage DiscountType.percentage = true
is_percentage _ = false

-- `value <= 0`, `value > 100`, and a value that has more than two decimal places.
abbrev pub is_bad_percentage : ℕ → Bool
is_bad_percentage value = value == 0 || ltb (100 * 10000) value || not (value % 100 == 0)

abbrev pub is_below : Option ℕ → ℕ → Bool
is_below none minimum = false
is_below (some m) minimum = ltb m minimum

abbrev pub ends_too_early : Option ℕ → Option ℕ → Bool
ends_too_early (some start) (some end) = leb end start
ends_too_early _ _ = false

unfoldable pub validate : Terms → Result (Unit {0})
validate t = do
  raise_if (is_percentage t.kind && is_bad_percentage t.value) (
      bad_request
        (lit "Discount percentage must be between 0 and 100 with at most two decimal places."))
  raise_if (is_below t.maximum_quantity t.minimum_quantity)
      (bad_request (lit "Maximum quantity must be greater than minimum quantity."))
  raise_if (ends_too_early t.starts_at t.ends_at)
      (bad_request (lit "Discount end date must be after its start date."))

-- `productId && !product.findFirst(...)`
abbrev pub misses_product : Directory → ℕ → Option ℕ → Bool
misses_product dir org none = false
misses_product dir org (some p) = elim (find_product dir org p) [ none ↦ true | some _ ↦ false ]

-- `trim() || undefined`, and `trim() || null`.
abbrev pub unless_empty : Text → Option Text
unless_empty [] = none
unless_empty (c ∷ s) = some (c ∷ s)

abbrev pub description_of : Option Text → Option Text
description_of none = none
description_of (some s) = unless_empty (trim s)

abbrev pub new_terms : NewRule → Terms
new_terms dto = record {
  kind = dto.kind;
  value = dto.value;
  minimum_quantity = dto.minimum_quantity;
  maximum_quantity = dto.maximum_quantity;
  starts_at = dto.starts_at;
  ends_at = dto.ends_at;
}

unfoldable pub new_rule : ℕ → ℕ → Text → NewRule → Rule
new_rule id org code dto = record {
  id = id;
  organization = org;
  product = dto.product;
  code = some code;
  name = dto.name;
  description = description_of dto.description;
  kind = dto.kind;
  value = dto.value;
  minimum_quantity = dto.minimum_quantity;
  maximum_quantity = dto.maximum_quantity;
  starts_at = dto.starts_at;
  ends_at = dto.ends_at;
  priority = or_else (pos 0) dto.priority;
  stackable = or_else false dto.stackable;
  notify_email = or_else false dto.notify_email;
  notify_whatsapp = or_else false dto.notify_whatsapp;
  notified_at = none;
  status = RecordStatus.active;
}

-- `id` is the id that the database gives the rule, and `random` is as in `promotion_code`.
unfoldable pub create : Directory → ℕ → Text → User → NewRule → State → Result State
create dir id random actor dto st = do
  org ← organization_id dir actor.id
  valid ← validate (new_terms dto)
  raise_if (misses_product dir org dto.product) (not_found (lit "Product not found."))
  let code = promotion_code random org none st.rules dto.name dto.code
  raise_if (is_taken org none code st.rules) (conflict (lit "Promotion code already exists."))
  ok (record st {
    rules = new_rule id org code dto ∷ st.rules;
    audits = audit actor "DISCOUNT_RULE_CREATED" id st.audits;
  })

abbrev pub is_given {ℓ} : {A : Type ℓ} → Option A → Bool
is_given none = false
is_given (some _) = true

-- `changingConfiguration`: some entry but `status` is there.
unfoldable pub changes_configuration : RuleChange → Bool
changes_configuration dto =
    is_given dto.product
    || is_given dto.code
    || is_given dto.name
    || is_given dto.description
    || is_given dto.kind
    || is_given dto.value
    || is_given dto.minimum_quantity
    || is_given dto.maximum_quantity
    || is_given dto.starts_at
    || is_given dto.ends_at
    || is_given dto.priority
    || is_given dto.stackable
    || is_given dto.notify_email
    || is_given dto.notify_whatsapp

-- `startsAt: { gt: now }`
unfoldable pub starts_after : ℕ → Rule → Bool
starts_after now r = elim r.starts_at [ none ↦ false | some t ↦ ltb now t ]

abbrev pub or_keep {ℓ} : {A : Type ℓ} → Option A → Option A → Option A
or_keep old none = old
or_keep old (some a) = some a

abbrev pub flatten {ℓ} : {A : Type ℓ} → Option (Option A) → Option A
flatten none = none
flatten (some o) = o

unfoldable pub merged_terms : Rule → RuleChange → Terms
merged_terms r dto = record {
  kind = or_else r.kind dto.kind;
  value = or_else r.value dto.value;
  minimum_quantity = or_else r.minimum_quantity dto.minimum_quantity;
  maximum_quantity = or_else r.maximum_quantity dto.maximum_quantity;
  starts_at = or_keep r.starts_at dto.starts_at;
  ends_at = or_keep r.ends_at dto.ends_at;
}

-- `resetNotification`
abbrev pub resets_notification : RuleChange → Bool
resets_notification dto =
    is_given dto.starts_at || is_given dto.notify_email || is_given dto.notify_whatsapp

abbrev is_empty : Text → Bool
is_empty [] = true
is_empty (c ∷ s) = false

-- `dto.code ? await promotionCode(...) : undefined`
unfoldable pub changed_code : Text → ℕ → Rule → RuleChange → List Rule → Option Text
changed_code random org r dto rules = elim dto.code [
  | none ↦ none
  | some c ↦
      if is_empty c
      then none
      else some (promotion_code random org (some r.id) rules (or_else r.name dto.name) (some c))
]

unfoldable pub changed_rule : Option Text → RuleChange → Rule → Rule
changed_rule code dto r = record {
  id = r.id;
  organization = r.organization;
  product = or_else r.product dto.product;
  code = or_keep r.code code;
  name = or_else r.name dto.name;
  description = elim dto.description [ none ↦ r.description | some s ↦ unless_empty (trim s) ];
  kind = or_else r.kind dto.kind;
  value = or_else r.value dto.value;
  minimum_quantity = or_else r.minimum_quantity dto.minimum_quantity;
  maximum_quantity = or_else r.maximum_quantity dto.maximum_quantity;
  starts_at = or_keep r.starts_at dto.starts_at;
  ends_at = or_keep r.ends_at dto.ends_at;
  priority = or_else r.priority dto.priority;
  stackable = or_else r.stackable dto.stackable;
  notify_email = or_else r.notify_email dto.notify_email;
  notify_whatsapp = or_else r.notify_whatsapp dto.notify_whatsapp;
  notified_at = if resets_notification dto then none else r.notified_at;
  status = or_else r.status dto.status;
}

abbrev pub takes_code : ℕ → ℕ → Option Text → List Rule → Bool
takes_code org id none rules = false
takes_code org id (some c) rules = is_taken org (some id) c rules

abbrev pub is_rule : ℕ → ℕ → Rule → Bool
is_rule org id r = r.id == id && r.organization == org

-- `now` is read before the checks, `later` by the statement that writes.
unfoldable pub update : Directory → ℕ → ℕ → Text → User → ℕ → RuleChange → State → Result State
update dir now later random actor id dto st = do
  org ← organization_id dir actor.id
  existing ← or_raise (find (is_rule org id) st.rules) (not_found (lit "Discount rule not found."))
  raise_if (changes_configuration dto && not (starts_after now existing))
      (conflict (lit "A discount rule cannot be edited after it starts."))
  raise_if (misses_product dir org (flatten dto.product)) (not_found (lit "Product not found."))
  valid ← validate (merged_terms existing dto)
  let code = changed_code random org existing dto st.rules
  raise_if (changes_configuration dto && not (starts_after later existing))
      (conflict (lit "A discount rule cannot be edited after it starts."))
  raise_if (takes_code org id code st.rules) (conflict (lit "Promotion code already exists."))
  ok (record st {
    rules = update_many (λ (r : Rule). r.id == id) (changed_rule code dto) st.rules;
    audits = audit actor "DISCOUNT_RULE_UPDATED" id st.audits;
  })

-- `applications: { none: {} }`
abbrev pub is_used : ℕ → List Application → Bool
is_used id = any (λ (a : Application). a.rule == id)

-- The condition of `deleteMany`.
unfoldable pub is_removable : ℕ → ℕ → ℕ → State → Rule → Bool
is_removable now org id st r =
    is_rule org id r && starts_after now r && not (is_used r.id st.applications)

unfoldable pub remove : Directory → ℕ → User → ℕ → State → Result State
remove dir now actor id st = do
  org ← organization_id dir actor.id
  existing ← or_raise (find (is_rule org id) st.rules) (not_found (lit "Discount rule not found."))
  raise_if (not (any (is_removable now org id st) st.rules))
      (conflict (lit "A discount rule cannot be deleted after it starts or has been used."))
  ok (record st {
    rules = filter (λ r. not (is_removable now org id st r)) st.rules;
    audits = audit actor "DISCOUNT_RULE_DELETED" id st.audits;
  })
