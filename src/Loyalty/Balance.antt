-- ===== src/Loyalty/Balance.antt =====
-- The points of customers under `LoyaltyService.adjust`.
use technova_pos_api.Prelude.{
  ℕ, ◌+◌, ◌≤◌, ◌≡◌, ◌≢◌, refl, sym, ap, ◌∙◌, List, [], ◌∷◌, ◌==◌, ltb, find, arith, ◌&&◌,
}
use technova_pos_api.Prelude.Int.{pos_part, neg_part}
use technova_pos_api.Prelude.Result.{
  ok, >>=-eq-ok, ok-injective, raise_if, raise_if-ok, or_raise, bad_request, not_found, conflict,
  lit,
}
use technova_pos_api.Directory.{Directory, User, organization_id}
use technova_pos_api.Inventory.Adjust.{is_zero}
use technova_pos_api.Sales.State.{Customer, LoyaltyAccount}
use technova_pos_api.Sales.Settling.{ensure_account, change_points}
use technova_pos_api.Sales.Accounts.{
  points_or_zero, points_of-change_points, points_of-ensure_account,
}
use technova_pos_api.Loyalty.State.{State}
use technova_pos_api.Loyalty.Points.{PointsChange, adjust_points, shift}

points_or_zero-changed :
    (c d : ℕ) (f : ℕ → ℕ) (accounts : List LoyaltyAccount)
    → c ≢ d
    → points_or_zero d (change_points c f accounts) ≡ points_or_zero d accounts
points_or_zero-changed c d f [] other = refl
points_or_zero-changed c d f (a ∷ rest) other = ground (arith, points_or_zero-changed c d f rest)

points_or_zero-other :
    (c d : ℕ) (f : ℕ → ℕ) (accounts : List LoyaltyAccount)
    → c ≢ d
    → points_or_zero d (change_points c f (ensure_account c accounts)) ≡ points_or_zero d accounts
points_or_zero-other c d f [] other = ground arith
points_or_zero-other c d f (a ∷ rest) other =
    ground (arith, points_or_zero-other c d f rest, points_or_zero-changed c d f rest)

-- An accepted adjustment of points changes the points of its customer by exactly the requested
-- number, up or down; it was not refused because what there was covers it. Nobody else's points
-- change. No account counts as no points.
pub adjust_points-points :
    (dir : Directory) (customers : List Customer) (actor : User) (c : ℕ) (dto : PointsChange)
    (st : State) {st' : State}
    → adjust_points dir customers actor c dto st ≡ ok st'
    → (neg_part dto.points ≤ points_or_zero c st.accounts + pos_part dto.points)
      × (points_or_zero c st'.accounts + neg_part dto.points
          ≡ points_or_zero c st.accounts + pos_part dto.points)
      × ((d : ℕ) → c ≢ d → points_or_zero d st'.accounts ≡ points_or_zero d st.accounts)
unfolding adjust_points
adjust_points-points dir customers actor c dto st {st'} e =
    let accounts = ensure_account c st.accounts in
    let (_, _, e1) =
      >>=-eq-ok
        (raise_if (is_zero dto.points) (bad_request (lit "Points adjustment cannot be zero."))) _
        e in
    let (org, _, e2) = >>=-eq-ok (organization_id dir actor.id) _ e1 in
    let (_, _, e3) =
      >>=-eq-ok
        (or_raise (find (λ x. x.id == c && x.organization == org) customers)
          (not_found (lit "Customer not found.")))
        _ e2 in
    let (_, covered, e4) =
      >>=-eq-ok
        (raise_if (ltb (points_or_zero c accounts + pos_part dto.points) (neg_part dto.points))
          (conflict (lit "The adjustment would make the loyalty balance negative.")))
        _ e3 in
    let enough = raise_if-ok _ _ covered in
    let same = ap (λ (x : State). x.accounts) (sym (ok-injective e4)) in
    let had = points_of-ensure_account c st.accounts in
    let now_has = points_of-change_points c (shift dto.points) accounts in
    (
      ground (arith, enough, had),
      ground (arith, same, had, now_has, enough),
      λ d other.
          ap (points_or_zero d) same
          ∙ points_or_zero-other c d (shift dto.points) st.accounts other,
    )
