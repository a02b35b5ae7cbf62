-- ===== src/Sales/Goods.antt =====
-- The stock under `SalesService.create`.
use technova_pos_api.Inventory.Receive.{units_sent}
use technova_pos_api.Sales.Frames.{update_loyalty-frame, settle_sale-frame}
use mathlib.Core.Path.{subst}
use technova_pos_api.Prelude.{
  sym, ℕ, suc, ◌+◌, ◌≡◌, refl, none, some, Option, List, [], ◌∷◌, ◌==◌, arith, sum_of,
  if◌then◌else◌, ap, ◌∙◌,
}
use technova_pos_api.Prelude.Result.{
  ok, >>=-eq-ok, ok-injective, ok_pair-injective, or_raise, or_raise-ok, conflict, about,
}
use technova_pos_api.Directory.{User, organization_id}
use technova_pos_api.Calendar.{Moment}
use technova_pos_api.Stock.{Stock, StockLevel, record_movement, take_level, take_stock}
use technova_pos_api.Stock.Ledger.{
  Keeps, Keeps-trans, Reconciles, Reconciles-Keeps, on_hand, on_hand-take_level, take_stock-some,
}
use technova_pos_api.Sales.State.{Shop, State, SaleRequest, LoyaltyRule}
use technova_pos_api.Sales.Customers.{active_loyalty_rule}
use technova_pos_api.Sales.Checks.{PreparedLine, Settlement}
use technova_pos_api.Sales.Selling.{
  find_unit, sell_stock, sell_line, sell_lines, mark_sold, sale_movement,
}
use technova_pos_api.Sales.Settling.{update_loyalty}
use technova_pos_api.Sales.Checkout.{settle_sale, checkout, prepare_sale, create, sale_row}

-- The quantity of a product that the lines sell.
abbrev pub sold_quantity : ℕ → List PreparedLine → ℕ
sold_quantity p = sum_of (λ r. if r.product.id == p then r.priced.quantity else 0)

-- What a sale of the given quantities does to the stock.
pub record IsSold (branch : ℕ) (sold : ℕ → ℕ) (st st' : Stock) : Type 0 where
  pub taken :
      (b p : ℕ)
      → on_hand b p st'.levels + (if branch == b then sold p else 0) ≡ on_hand b p st.levels
  pub logged : Keeps st st'
  pub unsent : (id q : ℕ) → units_sent id q st'.movements ≡ units_sent id q st.movements

abbrev line_quantity : PreparedLine → ℕ → ℕ
line_quantity row p = if row.product.id == p then row.priced.quantity else 0

taken-IsSold :
    (actor : User) (branch sale : ℕ) (row : PreparedLine) (st : Stock) (levels : List StockLevel)
    (unit : Option ℕ)
    → take_level branch row.product.id row.priced.quantity st.levels ≡ some levels
    → IsSold branch (line_quantity row) st (
        mark_sold unit (
          record_movement
            (sale_movement actor branch sale row unit)
            (record st { levels = levels })))
unfolding units_sent
taken-IsSold actor branch sale row st levels none e = record {
  taken = λ b p.
      ground (arith, on_hand-take_level branch row.product.id row.priced.quantity b p st.levels e);
  logged = λ b p.
      ground (arith, on_hand-take_level branch row.product.id row.priced.quantity b p st.levels e);
  unsent = λ id q. ground arith;
}
taken-IsSold actor branch sale row st levels (some u) e = record {
  taken = λ b p.
      ground (arith, on_hand-take_level branch row.product.id row.priced.quantity b p st.levels e);
  logged = λ b p.
      ground (arith, on_hand-take_level branch row.product.id row.priced.quantity b p st.levels e);
  unsent = λ id q. ground arith;
}

sell_stock-IsSold :
    (actor : User) (branch sale : ℕ) (row : PreparedLine) (st : Stock) {sold : Option ℕ × Stock}
    → sell_stock actor branch sale row st ≡ ok sold
    → IsSold branch (line_quantity row) st sold.1
unfolding sell_stock
sell_stock-IsSold actor branch sale row st {sold} e =
    let (unit, is_found, e1) = >>=-eq-ok (find_unit branch row st) _ e in
    let (left, taken, e2) =
      >>=-eq-ok
        (or_raise (take_stock branch row.product.id row.priced.quantity st)
          (conflict (about "Insufficient stock for %." row.product.id)))
        _ e1 in
    let was_taken = or_raise-ok (take_stock branch row.product.id row.priced.quantity st) _ taken in
    let (levels, is_levels, same_left) =
      take_stock-some branch row.product.id row.priced.quantity st was_taken in
    let sold_left = λ (x : Stock).
      mark_sold unit (record_movement (sale_movement actor branch sale row unit) x) in
    subst (IsSold branch (line_quantity row) st)
      (ap sold_left (sym same_left) ∙ (ok_pair-injective e2).1)
      (taken-IsSold actor branch sale row st levels unit is_levels)

IsSold-trans :
    (branch : ℕ) (f g : ℕ → ℕ) (s t u : Stock)
    → IsSold branch f s t
    → IsSold branch g t u
    → IsSold branch (λ p. f p + g p) s u
IsSold-trans branch f g s t u h k = record {
  taken = λ b p. ground (arith, h.taken b p, k.taken b p);
  logged = Keeps-trans s t u h.logged k.logged;
  unsent = λ id q. k.unsent id q ∙ h.unsent id q;
}

sell_line-IsSold :
    (actor : User) (now : Moment) (sale : ℕ) (dto : SaleRequest) (place : ℕ) (row : PreparedLine)
    (st : State) {st' : State}
    → sell_line actor now sale dto place row st ≡ ok st'
    → IsSold dto.branch (line_quantity row) st.stock st'.stock
unfolding sell_line
sell_line-IsSold actor now sale dto place row st {st'} e =
    let (sold, is_sold, e1) = >>=-eq-ok (sell_stock actor dto.branch sale row st.stock) _ e in
    subst (IsSold dto.branch (line_quantity row) st.stock)
      (ap (λ (x : State). x.stock) (ok-injective e1))
      (sell_stock-IsSold actor dto.branch sale row st.stock is_sold)

sell_lines-IsSold :
    (actor : User) (now : Moment) (sale : ℕ) (dto : SaleRequest) (place : ℕ)
    (rows : List PreparedLine) (st : State) {st' : State}
    → sell_lines actor now sale dto place rows st ≡ ok st'
    → IsSold dto.branch (λ p. sold_quantity p rows) st.stock st'.stock
unfolding sell_lines
sell_lines-IsSold actor now sale dto place [] st e =
    subst (IsSold dto.branch (λ p. 0) st.stock) (ap (λ (x : State). x.stock) (ok-injective e))
      (record { taken = λ b p. ground arith; logged = λ b p. refl; unsent = λ id q. refl })
sell_lines-IsSold actor now sale dto place (row ∷ rows) st {st'} e =
    let (mid, first, rest) = >>=-eq-ok (sell_line actor now sale dto place row st) _ e in
    IsSold-trans dto.branch (line_quantity row) (λ p. sold_quantity p rows) st.stock mid.stock
      st'.stock (sell_line-IsSold actor now sale dto place row st first)
      (sell_lines-IsSold actor now sale dto (suc place) rows mid rest)

checkout-IsSold :
    (actor : User) (now : Moment) (sale : ℕ) (dto : SaleRequest) (rule : Option LoyaltyRule)
    (rows : List PreparedLine) (s : Settlement) (st : State) {st' : State}
    → checkout actor now sale dto rule rows s st ≡ ok st'
    → IsSold dto.branch (λ p. sold_quantity p rows) st.stock st'.stock
unfolding checkout
checkout-IsSold actor now sale dto rule rows s st {st'} e =
    let entered = record st { sales = sale_row sale now actor dto s ∷ st.sales } in
    let (sold, is_sold, e1) = >>=-eq-ok (sell_lines actor now sale dto 0 rows entered) _ e in
    let (done, is_done, e2) =
      >>=-eq-ok
        (update_loyalty sale rule dto s.payable dto.customer (settle_sale sale now dto s sold)) _
        e1 in
    subst (IsSold dto.branch (λ p. sold_quantity p rows) st.stock)
      (sym (
          (update_loyalty-frame sale rule dto s.payable dto.customer
            (settle_sale sale now dto s sold) is_done).stock
          ∙ (settle_sale-frame sale now dto s sold).stock)
        ∙ ap (λ (x : State). x.stock) (ok-injective e2))
      (sell_lines-IsSold actor now sale dto 0 rows entered is_sold)

-- What a completed sale does to the stock, with the lines that it sells.
pub create-IsSold_lines :
    (shop : Shop) (now : Moment) (sale : ℕ) (actor : User) (dto : SaleRequest) (st : State)
    {st' : State}
    → create shop now sale actor dto st ≡ ok st'
    → (rows : List PreparedLine) × (s : Settlement) × (prepare_sale shop now actor dto st
        ≡ ok (rows, s))
      × IsSold dto.branch (λ p. sold_quantity p rows) st.stock st'.stock
unfolding create
create-IsSold_lines shop now sale actor dto st {st'} e =
    let (prepared, is_prepared, e1) = >>=-eq-ok (prepare_sale shop now actor dto st) _ e in
    let (org, known, e2) = >>=-eq-ok (organization_id shop.directory actor.id) _ e1 in
    (
      prepared.0,
      prepared.1,
      is_prepared,
      checkout-IsSold actor now sale dto (active_loyalty_rule shop org) prepared.0 prepared.1 st e2,
    )

-- A completed sale takes from the stock of its branch exactly the quantities of its lines, and
-- from no other branch anything; so no product is sold that was not on hand. Its movements
-- explain the change: a log that agreed with the quantities still does.
pub create-IsSold :
    (opening : ℕ → ℕ → ℕ) (shop : Shop) (now : Moment) (sale : ℕ) (actor : User) (dto : SaleRequest)
    (st : State) {st' : State}
    → create shop now sale actor dto st ≡ ok st'
    → Reconciles opening st.stock
    → (rows : List PreparedLine) × (s : Settlement) × (prepare_sale shop now actor dto st
        ≡ ok (rows, s))
      × ((b p : ℕ)
          → on_hand b p st'.stock.levels + (if dto.branch == b then sold_quantity p rows else 0)
            ≡ on_hand b p st.stock.levels)
      × Reconciles opening st'.stock
create-IsSold opening shop now sale actor dto st {st'} e h =
    let (rows, s, is_prepared, sold) = create-IsSold_lines shop now sale actor dto st e in
    (rows, s, is_prepared, sold.taken, Reconciles-Keeps opening st.stock st'.stock sold.logged h)
