-- ===== src/Loyalty/Points.antt =====
-- `LoyaltyService.adjust`: an administrator changes the points of a customer.
use technova_pos_api.Prelude.{ℕ, ◌+◌, ◌-◌, ◌&&◌, List, ◌∷◌, ◌==◌, ltb, find}
use technova_pos_api.Prelude.Int.{ℤ, pos_part, neg_part}
use technova_pos_api.Prelude.Text.{Text, trim}
use technova_pos_api.Prelude.Result.{
  Result, ok, or_raise, raise_if, ◌>>=◌, ◌>>◌, bad_request, not_found, conflict, lit,
}
use technova_pos_api.Directory.{Directory, User, organization_id}
use technova_pos_api.Inventory.State.{audit}
use technova_pos_api.Inventory.Adjust.{is_zero}
use technova_pos_api.Sales.State.{Customer}
use technova_pos_api.Sales.Settling.{ensure_account, change_points}
use technova_pos_api.Sales.Accounts.{points_or_zero}
use technova_pos_api.Loyalty.State.{State}

-- `AdjustLoyaltyPointsDto`
pub record PointsChange : Type 0 where
  pub points : ℤ
  pub reason : Text

-- `{ increment: points }`, which may be negative.
abbrev pub shift : ℤ → ℕ → ℕ
shift d n = n + pos_part d - neg_part d

unfoldable pub adjust_points :
    Directory → List Customer → User → ℕ → PointsChange → State → Result State
adjust_points dir customers actor c dto st = do
  raise_if (is_zero dto.points) (bad_request (lit "Points adjustment cannot be zero."))
  org ← organization_id dir actor.id
  customer ←
      or_raise (find (λ x. x.id == c && x.organization == org) customers)
        (not_found (lit "Customer not found."))
  let accounts = ensure_account c st.accounts
  raise_if (ltb (points_or_zero c accounts + pos_part dto.points) (neg_part dto.points))
      (conflict (lit "The adjustment would make the loyalty balance negative."))
  ok (record st {
    accounts = change_points c (shift dto.points) accounts;
    entries =
        record { customer = c; points = dto.points; reason = trim dto.reason; user = actor.id }
        ∷ st.entries;
    audits = audit actor "LOYALTY_POINTS_ADJUSTED" c st.audits;
  })
