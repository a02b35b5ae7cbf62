-- ===== src/Sales/Quote.antt =====
-- `SalesService.quote`, and its lines beside those of `create`.
use technova_pos_api.Prelude.{
  inr, inl, Option-cases, ℕ, ◌≡◌, ◌&&◌, List, [], ◌∷◌, map, ◌==◌, find, arith, All,
}
use technova_pos_api.Prelude.Result.{
  Result, ok, or_raise, raise_if, ◌>>=◌, ◌>>◌, >>=-eq-ok, bad_request, lit,
}
use technova_pos_api.Directory.{organization_id}
use technova_pos_api.Sales.Pricing.{PricedLine, Totals, quote_line, create_totals, quote_totals}
use technova_pos_api.Sales.Prices.{
  IsPriced, quote_line-prepare_line, prepare_line-IsPriced, create_totals-IsPriced,
}
use technova_pos_api.Sales.State.{Shop, SaleItemInput}
use technova_pos_api.Sales.Checks.{
  PreparedLine, on_sale, missing_products, prepare_item, prepare_items,
}

unfoldable pub quote_item : Shop → ℕ → ℕ → SaleItemInput → Result PricedLine
quote_item shop org now input = do
  product ←
      or_raise (find (λ p. p.id == input.product && on_sale org p) shop.products)
        (bad_request (lit "One or more products are invalid."))
  ok (quote_line now product.priced input.quantity)

unfoldable pub quote_items : Shop → ℕ → ℕ → List SaleItemInput → Result (List PricedLine)
quote_items shop org now [] = ok []
quote_items shop org now (i ∷ is) = do
  line ← quote_item shop org now i
  rest ← quote_items shop org now is
  ok (line ∷ rest)

unfoldable pub quote : Shop → ℕ → ℕ → List SaleItemInput → Result (List PricedLine × Totals)
quote shop now user items = do
  org ← organization_id shop.directory user
  raise_if (missing_products shop org (map (λ i. i.product) items))
      (bad_request (lit "One or more products are invalid."))
  lines ← quote_items shop org now items
  ok (lines, quote_totals lines)

module _ (shop : Shop) (org now : ℕ) where
  quote_item-prepare_item :
      (i : SaleItemInput) {row : PreparedLine}
      → prepare_item shop org now i ≡ ok row
      → (quote_item shop org now i ≡ ok row.priced) × IsPriced row.priced
  unfolding prepare_item quote_item
  quote_item-prepare_item i e =
      elim (Option-cases (find (λ p. p.id == i.product && on_sale org p) shop.products)) [
        | inl missing ↦ ground arith
        | inr (p, found) ↦ ground (
          arith,
          quote_line-prepare_line now p.priced i.quantity,
          prepare_line-IsPriced now p.priced i.quantity,
        )
      ]

  -- Lines that the sale accepts are quoted as they are charged.
  pub quote_items-prepare_items :
      (is : List SaleItemInput) {rows : List PreparedLine}
      → prepare_items shop org now is ≡ ok rows
      → (quote_items shop org now is ≡ ok (map (λ r. r.priced) rows))
        × All IsPriced (map (λ r. r.priced) rows)
  unfolding prepare_items quote_items
  quote_items-prepare_items [] e = ground arith
  quote_items-prepare_items (i ∷ is) e =
      let (row, first, rest) = >>=-eq-ok (prepare_item shop org now i) _ e in
      let (rows', others, all) = >>=-eq-ok (prepare_items shop org now is) _ rest in
      ground (arith, quote_item-prepare_item i first, quote_items-prepare_items is others)

pub quote_totals-create_totals :
    (lines : List PricedLine) → All IsPriced lines → quote_totals lines ≡ create_totals lines
unfolding quote_totals create_totals
quote_totals-create_totals lines h = ground (arith, create_totals-IsPriced lines h)
