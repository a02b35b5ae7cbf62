-- ===== src/Sales/Selling.antt =====
-- The loop of the transaction of `SalesService.create`: the stock and the rows of each line.
use technova_pos_api.Prelude.{
  ℕ, suc, ◌&&◌, Option, none, some, List, [], ◌∷◌, ◌==◌, if◌then◌else◌, find,
}
use technova_pos_api.Prelude.Result.{Result, ok, or_raise, ◌>>=◌, conflict, about}
use technova_pos_api.Prelude.Text.{Text, text_eq, trim, to_upper}
use technova_pos_api.Calendar.{Moment, calculate_warranty_end_date}
use technova_pos_api.Directory.{User}
use technova_pos_api.Stock.{
  Stock, InventoryUnit, UnitStatus, StockMovement, MovementType, Reference, is_in_stock, take_stock,
  record_movement, update_unit,
}
use technova_pos_api.Sales.Pricing.{PricedLine}
use technova_pos_api.Sales.State.{
  WarrantyEvent, State, WarrantyPolicy, Warranty, SaleRequest, DiscountApplication,
}
use technova_pos_api.Sales.Checks.{PreparedLine}

-- `row.input.serialNumber!.trim().toUpperCase()`
abbrev pub serial_of : PreparedLine → Text
serial_of row = elim row.serial [ none ↦ [] | some s ↦ to_upper (trim s) ]

-- `inventoryUnit.findFirst`: the unit that a serialized line sells.
unfoldable pub find_unit : ℕ → PreparedLine → Stock → Result (Option ℕ)
find_unit branch row st =
    if row.product.track_serials
    then (do
      u ←
          or_raise
            (find
              (λ (u : InventoryUnit).
                u.product == row.product.id
                && u.branch == branch
                && text_eq u.serial (serial_of row)
                && is_in_stock u.status)
              st.units)
            (conflict (about "Serial number for % is unavailable." row.product.id))
      ok (some u.id))
    else ok none

abbrev pub sale_movement : User → ℕ → ℕ → PreparedLine → Option ℕ → StockMovement
sale_movement actor branch sale row unit = record {
  branch = branch;
  product = row.product.id;
  unit = unit;
  user = actor.id;
  kind = MovementType.sale;
  quantity = row.priced.quantity;
  reference = Reference.sale sale;
  reason = none;
}

abbrev pub mark_sold : Option ℕ → Stock → Stock
mark_sold none st = st
mark_sold (some u) st = update_unit u (λ x. record x { status = UnitStatus.sold }) st

-- The stock statements of one round of the loop, with the unit that is sold.
unfoldable pub sell_stock : User → ℕ → ℕ → PreparedLine → Stock → Result (Option ℕ × Stock)
sell_stock actor branch sale row st = do
  unit ← find_unit branch row st
  left ←
      or_raise (take_stock branch row.product.id row.priced.quantity st)
        (conflict (about "Insufficient stock for %." row.product.id))
  ok (unit, mark_sold unit (record_movement (sale_movement actor branch sale row unit) left))

-- The warranty of a serialized line with a policy starts at once.
abbrev pub start_warranty :
    Moment → ℕ → ℕ → Option ℕ → Option ℕ → Option WarrantyPolicy → List Warranty → List Warranty
start_warranty now sale place customer (some unit) (some policy) ws =
    record {
      policy = policy.id;
      unit = unit;
      sale = sale;
      place = place;
      customer = customer;
      starts_at = now.date;
      ends_at = calculate_warranty_end_date now.date policy.duration_months;
    }
    ∷ ws
start_warranty now sale place customer _ _ ws = ws

abbrev pub log_warranty :
    Moment → ℕ → ℕ → Option ℕ → Option WarrantyPolicy → List WarrantyEvent → List WarrantyEvent
log_warranty now sale place (some unit) (some policy) es =
    record { unit = unit; sale = sale; place = place; occurred_at = now.date } ∷ es
log_warranty now sale place _ _ es = es

abbrev pub apply_rule : ℕ → ℕ → PricedLine → List DiscountApplication → List DiscountApplication
apply_rule sale place l ds = elim l.rule [
  | none ↦ ds
  | some r ↦ record { rule = r; sale = sale; place = place; amount = l.discount } ∷ ds
]

-- One round of the loop over the prepared lines.
unfoldable pub sell_line : User → Moment → ℕ → SaleRequest → ℕ → PreparedLine → State → Result State
sell_line actor now sale dto place row st = do
  (unit, stock) ← sell_stock actor dto.branch sale row st.stock
  ok (record st {
    stock = stock;
    items = record { sale = sale; place = place; unit = unit; line = row.priced } ∷ st.items;
    discounts = apply_rule sale place row.priced st.discounts;
    warranties =
        start_warranty now sale place dto.customer unit row.product.warranty_policy st.warranties;
    warranty_events =
        log_warranty now sale place unit row.product.warranty_policy st.warranty_events;
  })

unfoldable pub sell_lines :
    User → Moment → ℕ → SaleRequest → ℕ → List PreparedLine → State → Result State
sell_lines actor now sale dto place [] st = ok st
sell_lines actor now sale dto place (row ∷ rows) st =
    sell_line actor now sale dto place row st >>= sell_lines actor now sale dto (suc place) rows
