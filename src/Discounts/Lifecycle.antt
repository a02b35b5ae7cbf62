-- ===== src/Discounts/Lifecycle.antt =====
-- `DiscountsService.lifecycleStatus` and the figures of `dashboard`.
use technova_pos_api.Sales.State.{SaleStatus}
use technova_pos_api.Sales.Pricing.{DiscountRule}
use technova_pos_api.Discounts.State.{State, Rule, Application}
use technova_pos_api.Directory.{organization_id, RecordStatus, Directory}
use technova_pos_api.Prelude.Result.{Result, ◌>>=◌, ok}
use technova_pos_api.Prelude.{
  if◌then◌else◌, map, List, some, none, Option, ◌&&◌, not, false, true, Bool, ℕ, sum_of, filter,
  length, ◌==◌, ltb,
}

-- The result of `lifecycleStatus`.
pub data Lifecycle : Type 0 where
  archived paused upcoming expired active : Lifecycle

abbrev pub is_later : ℕ → Option ℕ → Bool
is_later now none = false
is_later now (some t) = ltb now t

abbrev pub is_earlier : ℕ → Option ℕ → Bool
is_earlier now none = false
is_earlier now (some t) = ltb t now

unfoldable pub lifecycle_status : Rule → ℕ → Lifecycle
lifecycle_status r now = elim r.status [
  | RecordStatus.archived ↦ Lifecycle.archived
  | RecordStatus.inactive ↦ Lifecycle.paused
  | RecordStatus.active ↦
      if is_later now r.starts_at
      then Lifecycle.upcoming
      else if is_earlier now r.ends_at
      then Lifecycle.expired
      else Lifecycle.active
]

abbrev pub is_running : Lifecycle → Bool
is_running Lifecycle.active = true
is_running _ = false

abbrev pub is_upcoming : Lifecycle → Bool
is_upcoming Lifecycle.upcoming = true
is_upcoming _ = false

-- The columns of the rule that pricing reads.
abbrev pub priced : Rule → DiscountRule
priced r = record {
  id = r.id;
  kind = r.kind;
  value = r.value;
  minimum_quantity = r.minimum_quantity;
  maximum_quantity = r.maximum_quantity;
  starts_at = r.starts_at;
  ends_at = r.ends_at;
}

abbrev pub is_voided : SaleStatus → Bool
is_voided SaleStatus.voided = true
is_voided _ = false

-- `validApplications`
unfoldable pub valid_applications : ℕ → List Application → List Application
valid_applications rule =
    filter (λ (a : Application). a.rule == rule && not (is_voided a.sale_status))

-- The figures of a promotion.
pub record Promotion : Type 0 where
  pub rule : Rule
  pub lifecycle : Lifecycle
  pub usage_count : ℕ
  pub units_sold : ℕ
  pub total_discount : ℕ
  pub revenue : ℕ

unfoldable pub promotion : ℕ → List Application → Rule → Promotion
promotion now applications r =
    let valid = valid_applications r.id applications in
    record {
      rule = r;
      lifecycle = lifecycle_status r now;
      usage_count = length valid;
      units_sold = sum_of (λ (a : Application). a.quantity) valid;
      total_discount = sum_of (λ (a : Application). a.amount) valid;
      revenue = sum_of (λ (a : Application). a.line_total) valid;
    }

pub record Stats : Type 0 where
  pub active_promotions : ℕ
  pub upcoming_promotions : ℕ
  pub total_discounts : ℕ
  pub revenue_from_promotions : ℕ
  pub redemptions : ℕ

unfoldable pub stats : List Promotion → Stats
stats ps = record {
  active_promotions = length (filter (λ (p : Promotion). is_running p.lifecycle) ps);
  upcoming_promotions = length (filter (λ (p : Promotion). is_upcoming p.lifecycle) ps);
  total_discounts = sum_of (λ (p : Promotion). p.total_discount) ps;
  revenue_from_promotions = sum_of (λ (p : Promotion). p.revenue) ps;
  redemptions = sum_of (λ (p : Promotion). p.usage_count) ps;
}

unfoldable pub dashboard : Directory → ℕ → ℕ → State → Result (Stats × List Promotion)
dashboard dir now user st = do
  org ← organization_id dir user
  let rules = filter (λ (r : Rule). r.organization == org) st.rules
  let promotions = map (promotion now st.applications) rules
  ok (stats promotions, promotions)
