-- ===== src/Returns/Create.antt =====
-- `ReturnsService.create`.
use technova_pos_api.Prelude.{
  [], ℕ, ◌-◌, min, Bool, ◌&&◌, Option, none, some, List, ◌∷◌, ◌==◌, ltb, leb, if◌then◌else◌, any,
  update_many, sum_of,
}
use technova_pos_api.Prelude.Int.{ℤ, pos, sub_ℕ, ◌-ℤ◌}
use technova_pos_api.Prelude.Result.{Result, ok, ◌>>=◌}
use technova_pos_api.Directory.{Directory, User, organization_id}
use technova_pos_api.Inventory.State.{audit}
use technova_pos_api.Sales.State.{SaleStatus}
use technova_pos_api.Sales.Customers.{points_of}
use technova_pos_api.Sales.Settling.{change_points}
use technova_pos_api.Returns.State.{
  State, Sale, SaleItem, Return, ReturnItem, ReturnStatus, ReturnRequest, is_completed,
}
use technova_pos_api.Returns.Prepare.{PreparedReturn, find_sale, prepare_lines, items_of}
use technova_pos_api.Returns.Refund.{
  credit_offset, cash_refund, resolution_of, check_refund, refund_payments, give_store_credit,
  give_points, gives_store_credit, gives_points, points_for, pays_back,
}
use technova_pos_api.Returns.Restock.{return_lines}
use technova_pos_api.Returns.Offset.{offset_credit}

-- What `create` returns.
pub record ReturnResult : Type 0 where
  pub return : ℕ
  pub total : ℕ
  pub credit_offset : ℤ
  pub cash_refund : ℕ
  pub status : SaleStatus

unfoldable pub total_refund : List PreparedReturn → ℕ
total_refund = sum_of (λ (r : PreparedReturn). r.refund)

-- `return.create`
unfoldable pub return_row : ℕ → ReturnRequest → ℕ → ℕ → Return
return_row id dto total cash = record {
  id = id;
  sale = dto.sale;
  refunded_by_payment = pays_back dto cash;
  status = ReturnStatus.completed;
  reason = dto.reason;
  total = total;
  resolution = resolution_of dto;
  store_credit_amount = if gives_store_credit (resolution_of dto) then cash else 0;
  loyalty_points_awarded = if gives_points (resolution_of dto) then points_for cash else 0;
}

-- `return: { saleId: sale.id, status: COMPLETED }`
abbrev pub is_of_sale : ℕ → List Return → ReturnItem → Bool
is_of_sale sale rs r =
    any (λ (x : Return). x.id == r.of && x.sale == sale && is_completed x.status) rs

unfoldable pub returned_quantity : ℕ → List Return → List ReturnItem → ℕ
returned_quantity sale rs =
    sum_of (λ (r : ReturnItem). if is_of_sale sale rs r then r.quantity else 0)

abbrev pub sold_quantity : List SaleItem → ℕ
sold_quantity = sum_of (λ (i : SaleItem). i.quantity)

-- `fullyReturned`, in whole thousandths.
unfoldable pub is_fully_returned : Sale → State → Bool
is_fully_returned sale st =
    leb (sold_quantity (items_of sale.id st)) (returned_quantity sale.id st.returns st.return_items)

abbrev pub status_after : Bool → SaleStatus
status_after full = if full then SaleStatus.refunded else SaleStatus.partially_refunded

-- `sale.update`
unfoldable pub refunded_sale : Bool → ℤ → ℕ → Sale → Sale
refunded_sale full offset cash s = record s {
  status = status_after full;
  paid_total = s.paid_total -ℤ pos cash;
  balance_due = s.balance_due -ℤ offset;
}

-- `points` is what the customer's account held when the sale was read.
unfoldable pub reverse_points : ℕ → Option ℕ → Option ℕ → ℕ → State → State
reverse_points id (some c) (some points) total st =
    let reversal = min points (points_for total) in
    if ltb 0 reversal
    then (record st {
      loyalty = change_points c (λ n. n - reversal) st.loyalty;
      loyalty_entries =
          record { customer = c; amount = sub_ℕ 0 reversal; reason = "RETURN"; return = id }
          ∷ st.loyalty_entries;
    })
    else st
reverse_points id _ _ total st = st

abbrev pub points_before : Sale → State → Option ℕ
points_before sale st = elim sale.customer [ none ↦ none | some c ↦ points_of c st.loyalty ]

-- The transaction up to the loop over the lines: the payment, the return, and what replaces money.
unfoldable pub give_refund : ℕ → ℕ → ReturnRequest → Sale → ℕ → ℕ → State → State
give_refund now id dto sale total cash st = give_points id (resolution_of dto) sale.customer cash (
    give_store_credit id (resolution_of dto) sale.customer cash (record st {
      payments = refund_payments now dto cash dto.refund_method st.payments;
      returns = return_row id dto total cash ∷ st.returns;
    }))

-- The rest of the transaction behind the loop.
unfoldable pub settle_sale : Sale → ℤ → ℕ → State → State
settle_sale sale offset cash st = record st {
  agreements = offset_credit sale.id offset st.agreements;
  sales =
      update_many (λ (s : Sale). s.id == sale.id)
        (refunded_sale (is_fully_returned sale st) offset cash) st.sales;
}

-- The transaction, with `fullyReturned`.
unfoldable pub complete :
    User → ℕ → ℕ → ReturnRequest → Sale → List PreparedReturn → State → Bool × State
complete actor now id dto sale rows st =
    let total = total_refund rows in
    let offset = credit_offset total sale.balance_due in
    let cash = cash_refund total sale.balance_due in
    let returned =
      return_lines actor now id dto.reason sale rows (give_refund now id dto sale total cash st) in
    (
      is_fully_returned sale returned,
      reverse_points id sale.customer (points_before sale st) total
          (settle_sale sale offset cash returned),
    )

-- `id` is the id that the database gives the return.
unfoldable pub create :
    Directory → ℕ → ℕ → User → ReturnRequest → State → Result (ReturnResult × State)
create dir now id actor dto st = do
  org ← organization_id dir actor.id
  sale ← find_sale dir org dto.sale st
  rows ← prepare_lines st sale [] dto.items
  let total = total_refund rows
  let cash = cash_refund total sale.balance_due
  checked ← check_refund dto sale.customer cash
  let (full, done) = complete actor now id dto sale rows st
  ok (
    record {
      return = id;
      total = total;
      credit_offset = credit_offset total sale.balance_due;
      cash_refund = cash;
      status = status_after full;
    },
    record done { audits = audit actor "RETURN_COMPLETED" id done.audits },
  )
