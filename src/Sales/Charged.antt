-- ===== src/Sales/Charged.antt =====
-- The lines that `SalesService.create` charges, and their sums.
use mathlib.Core.Path.{subst}
use technova_pos_api.Sales.Customers.{active_loyalty_rule, redemption_value}
use technova_pos_api.Sales.Accepted.{check_payment-IsPaid, prepare_sale-IsPrepared}
use technova_pos_api.Stock.{piece}
use technova_pos_api.Sales.Checkout.{prepare_sale}
use technova_pos_api.Directory.{User}
use technova_pos_api.Sales.Pricing.{Totals, create_totals, PricedLine, prepare_line}
use technova_pos_api.Calendar.{Moment}
use technova_pos_api.Sales.State.{State, SaleRequest, ShopProduct, Shop, SaleItemInput}
use technova_pos_api.Sales.Checks.{
  no_serial, Settlement, on_sale, prepare_items, prepare_item, PreparedLine,
}
use technova_pos_api.Prelude.Result.{raise_if-then, or_raise-then, >>=-eq-ok, ok-injective, ok}
use technova_pos_api.Prelude.{
  [], arith, map, ◌∷◌, List, ◌||◌, ◌&&◌, not, ◌∙◌, ap, sym, ◌≡◌, ◌≤◌, ℕ, find-test, All, sum_of,
  all, find, ==_iff, ◌==◌,
}
use technova_pos_api.Sales.Quote.{quote_items-prepare_items}
use technova_pos_api.Sales.Prices.{IsPriced, create_totals-IsPriced}

-- What was asked for, beside what is charged.
abbrev pub asked : List SaleItemInput → List (ℕ × ℕ)
asked [] = []
asked (i ∷ is) = (i.product, i.quantity) ∷ asked is

abbrev pub listed : List PreparedLine → List (ℕ × ℕ)
listed [] = []
listed (r ∷ rs) = (r.product.id, r.priced.quantity) ∷ listed rs

prepare_item-listed :
    (shop : Shop) (org now : ℕ) (i : SaleItemInput) {row : PreparedLine}
    → prepare_item shop org now i ≡ ok row
    → (row.product.id ≡ i.product) × (row.priced.quantity ≡ i.quantity)
unfolding prepare_item prepare_line
prepare_item-listed shop org now i e =
    let test = λ (p : ShopProduct). p.id == i.product && on_sale org p in
    let (product, found, e1) = or_raise-then (find test shop.products) _ _ e in
    let met = find-test test shop.products found in
    let (h2, e2) =
      raise_if-then (product.track_serials && (no_serial i.serial || not (i.quantity == piece))) _ _
        e1 in
    let (h3, e3) = raise_if-then (not product.track_serials && not (no_serial i.serial)) _ _ e2 in
    let same = ok-injective e3 in
    (
      ap (λ (r : PreparedLine). r.product.id) (sym same)
          ∙ (==_iff product.id i.product).0 (ground (arith, met)),
      ap (λ (r : PreparedLine). r.priced.quantity) (sym same),
    )

prepare_items-listed :
    (shop : Shop) (org now : ℕ) (is : List SaleItemInput) {rows : List PreparedLine}
    → prepare_items shop org now is ≡ ok rows
    → listed rows ≡ asked is
unfolding prepare_items
prepare_items-listed shop org now [] e = ap listed (sym (ok-injective e))
prepare_items-listed shop org now (i ∷ is) e =
    let (row, first, rest) = >>=-eq-ok (prepare_item shop org now i) _ e in
    let (rows', others, all) = >>=-eq-ok (prepare_items shop org now is) _ rest in
    let (is_product, is_quantity) = prepare_item-listed shop org now i first in
    let tail = prepare_items-listed shop org now is others in
    ap listed (sym (ok-injective all))
    ∙ ap (λ p. (p, row.priced.quantity) ∷ listed rows') is_product
    ∙ ap (λ q. (i.product, q) ∷ listed rows') is_quantity
    ∙ ap (λ l. (i.product, i.quantity) ∷ l) tail

-- The lines of an accepted sale are those that were asked for. On each of them the discount is at
-- most the price of the goods, and the line costs that price less the discount, with the tax; so
-- the discounts together are at most the prices, and the total of the sale is that of its lines.
pub prepare_sale-totals :
    (shop : Shop) (now : Moment) (actor : User) (dto : SaleRequest) (st : State)
    (rows : List PreparedLine) (s : Settlement)
    → prepare_sale shop now actor dto st ≡ ok (rows, s)
    → let lines = map (λ (r : PreparedLine). r.priced) rows in
      (listed rows ≡ asked dto.items)
      × All IsPriced lines
      × (s.totals.discount_total ≤ s.totals.subtotal)
      × (s.totals.total ≡ sum_of (λ (l : PricedLine). l.total) lines)
prepare_sale-totals shop now actor dto st rows s e =
    let p = prepare_sale-IsPrepared shop now actor dto st rows s e in
    let lines = map (λ (r : PreparedLine). r.priced) rows in
    let value = redemption_value (active_loyalty_rule shop p.org) in
    let paid =
      check_payment-IsPaid now.ms p.customer value dto st.agreements (create_totals lines) s
        p.paid in
    let same = ap (λ (x : Settlement). x.totals) paid.amounts in
    let (found, priced) = quote_items-prepare_items shop p.org now.ms dto.items p.lines in
    let (within, total) = create_totals-IsPriced lines priced in
    (
      prepare_items-listed shop p.org now.ms dto.items p.lines,
      priced,
      subst (λ (t : Totals). t.discount_total ≤ t.subtotal) (sym same) within,
      ap (λ (t : Totals). t.total) same ∙ total,
    )
