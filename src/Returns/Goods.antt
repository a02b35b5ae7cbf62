-- ===== src/Returns/Goods.antt =====
-- The stock under `ReturnsService.create`.
use technova_pos_api.Inventory.Receive.{units_sent}
use technova_pos_api.Returns.Refund.{cash_refund}
use technova_pos_api.Returns.Frames.{give_refund-IsFramed}
use technova_pos_api.Returns.Steps.{looped, given, create-IsCreated}
use technova_pos_api.Returns.Create.{total_refund, create, ReturnResult}
use technova_pos_api.Prelude.{ap, ◌∙◌, sym}
use mathlib.Core.Path.{subst}
use technova_pos_api.Prelude.Result.{Result, ◌>>=◌, err, ok}
use technova_pos_api.Directory.{organization_id, Directory, User}
use technova_pos_api.Prelude.{ℕ, ◌+◌, ◌≡◌, refl, List, [], ◌∷◌, arith, sum_of, if◌then◌else◌}
use technova_pos_api.Directory.{User}
use technova_pos_api.Prelude.Text.{Text}
use technova_pos_api.Stock.{Stock, piece}
use technova_pos_api.Stock.Ledger.{Reconciles, on_hand, incoming, outgoing, same, on_hand-put_level}
use technova_pos_api.Returns.State.{ReturnRequest, State, Sale}
use technova_pos_api.Returns.Prepare.{find_sale, prepare_lines, PreparedReturn, is_serialized}
use technova_pos_api.Returns.Restock.{restocks, restock_line, return_line, return_lines}

-- The quantity of a product that a line puts back at a branch, and the units that it only marks.
abbrev pub put_back : Sale → ℕ → ℕ → PreparedReturn → ℕ
put_back sale b p row =
    if same sale.branch row.item.product b p
    then (if is_serialized row.item
        then 0
        else if restocks row.input
        then row.input.quantity
        else 0)
    else 0

abbrev pub marked : Sale → ℕ → ℕ → PreparedReturn → ℕ
marked sale b p row =
    if same sale.branch row.item.product b p
    then (if is_serialized row.item then piece else 0)
    else 0

-- What returned lines do to the stock.
pub record IsReturned (back units : ℕ → ℕ → ℕ) (st st' : Stock) : Type 0 where
  pub raised : (b p : ℕ) → on_hand b p st'.levels ≡ on_hand b p st.levels + back b p
  pub logged :
      (b p : ℕ) → incoming b p st'.movements ≡ incoming b p st.movements + back b p + units b p
  pub unsent : (id q : ℕ) → units_sent id q st'.movements ≡ units_sent id q st.movements
  pub kept : (b p : ℕ) → outgoing b p st'.movements ≡ outgoing b p st.movements

restock_line-IsReturned :
    (actor : User) (id : ℕ) (sale : Sale) (row : PreparedReturn) (st : Stock)
    → IsReturned
        (λ b p. put_back sale b p row)
        (λ b p. marked sale b p row)
        st
        (restock_line actor id sale row st)
unfolding restock_line units_sent
restock_line-IsReturned actor id sale row st = record {
  raised = λ b p.
      ground
        (arith, on_hand-put_level sale.branch row.item.product row.input.quantity b p st.levels);
  logged = λ b p. ground arith;
  kept = λ b p. ground arith;
  unsent = λ id q. ground arith;
}

pub return_lines-IsReturned :
    (actor : User) (now id : ℕ) (reason : Text) (sale : Sale) (rows : List PreparedReturn)
    (st : State)
    → IsReturned
        (λ b p. sum_of (put_back sale b p) rows)
        (λ b p. sum_of (marked sale b p) rows)
        st.stock
        (return_lines actor now id reason sale rows st).stock
unfolding return_lines return_line
return_lines-IsReturned actor now id reason sale [] st = record {
  raised = λ b p. omega arith;
  logged = λ b p. omega arith;
  kept = λ b p. refl;
  unsent = λ id q. refl;
}
return_lines-IsReturned actor now id reason sale (row ∷ rows) st =
    let first = restock_line-IsReturned actor id sale row st.stock in
    let rest =
      return_lines-IsReturned actor now id reason sale rows
        (return_line actor now id reason sale row st) in
    record {
      raised = λ b p. omega (arith, first.raised b p, rest.raised b p);
      logged = λ b p. omega (arith, first.logged b p, rest.logged b p);
      kept = λ b p. omega (arith, first.kept b p, rest.kept b p);
      unsent = λ id q. rest.unsent id q ∙ first.unsent id q;
    }

-- The sale and the rows of a return.
abbrev pub returned_rows :
    Directory → User → ReturnRequest → State → Result (Sale × List PreparedReturn)
returned_rows dir actor dto st = do
  org ← organization_id dir actor.id
  sale ← find_sale dir org dto.sale st
  rows ← prepare_lines st sale [] dto.items
  ok (sale, rows)

abbrev pub units_of : Result (Sale × List PreparedReturn) → ℕ → ℕ → ℕ
units_of (err e) b p = 0
units_of (ok (sale, rows)) b p = sum_of (marked sale b p) rows

-- What comes back of a product at a branch as serialized units.
abbrev pub units_back : Directory → User → ReturnRequest → State → ℕ → ℕ → ℕ
units_back dir actor dto st = units_of (returned_rows dir actor dto st)

returned_rows-ok :
    (dir : Directory) (actor : User) (dto : ReturnRequest) (st : State) {org : ℕ} {sale : Sale}
    {rows : List PreparedReturn}
    → organization_id dir actor.id ≡ ok org
    → find_sale dir org dto.sale st ≡ ok sale
    → prepare_lines st sale [] dto.items ≡ ok rows
    → returned_rows dir actor dto st ≡ ok (sale, rows)
returned_rows-ok dir actor dto st known found prepared = rw (known, found, prepared) refl

-- What a completed return does to the stock, with its sale and its rows.
pub create-IsReturned :
    (dir : Directory) (now id : ℕ) (actor : User) (dto : ReturnRequest) (st : State)
    {result : ReturnResult} {st' : State}
    → create dir now id actor dto st ≡ ok (result, st')
    → (sale : Sale) × (rows : List PreparedReturn) × (returned_rows dir actor dto st
        ≡ ok (sale, rows))
      × IsReturned
          (λ b p. sum_of (put_back sale b p) rows)
          (λ b p. sum_of (marked sale b p) rows)
          st.stock
          st'.stock
create-IsReturned dir now id actor dto st {result} {st'} e =
    let done = create-IsCreated dir now id actor dto st e in
    let total = total_refund done.rows in
    let cash = cash_refund total done.sale.balance_due in
    let start = given now id dto done.sale done.rows st in
    let loop = return_lines-IsReturned actor now id dto.reason done.sale done.rows start in
    let back = λ (b p : ℕ). sum_of (put_back done.sale b p) done.rows in
    let units = λ (b p : ℕ). sum_of (marked done.sale b p) done.rows in
    (
      done.sale,
      done.rows,
      returned_rows-ok dir actor dto st done.known done.found done.prepared,
      subst (IsReturned back units st.stock) (sym done.stock) (
          subst
            (λ s. IsReturned back units s (looped actor now id dto done.sale done.rows st).stock)
            (give_refund-IsFramed now id dto done.sale total cash st).0 loop),
    )

-- The balance of the stock under a return, and what it leaves alone in the log.
pub record IsRefilled (units : ℕ → ℕ → ℕ) (st st' : Stock) : Type 0 where
  pub shifted :
      (b p : ℕ)
      → on_hand b p st'.levels + outgoing b p st'.movements + incoming b p st.movements + units b p
        ≡ on_hand b p st.levels + outgoing b p st.movements + incoming b p st'.movements
  pub unsent : (id q : ℕ) → units_sent id q st'.movements ≡ units_sent id q st.movements

pub create-IsRefilled :
    (dir : Directory) (now id : ℕ) (actor : User) (dto : ReturnRequest) (st : State)
    {result : ReturnResult} {st' : State}
    → create dir now id actor dto st ≡ ok (result, st')
    → IsRefilled (units_back dir actor dto st) st.stock st'.stock
create-IsRefilled dir now id actor dto st {result} {st'} e =
    let (sale, rows, is_rows, moved) = create-IsReturned dir now id actor dto st e in
    let same : (b p : ℕ) → units_back dir actor dto st b p ≡ sum_of (marked sale b p) rows =
      λ b p. ap (λ r. units_of r b p) is_rows in
    record {
      shifted = λ b p. omega (arith, same b p, moved.raised b p, moved.logged b p, moved.kept b p);
      unsent = moved.unsent;
    }

-- A completed return raises the quantities on hand by what it puts back, at the branch of the
-- sale, and nothing else. Each quantity put back has its movement; a serialized unit has a movement
-- too, but is only marked as returned, so the log runs ahead of the quantities by one piece for it.
pub create-stock :
    (opening : ℕ → ℕ → ℕ) (dir : Directory) (now id : ℕ) (actor : User) (dto : ReturnRequest)
    (st : State) {result : ReturnResult} {st' : State}
    → create dir now id actor dto st ≡ ok (result, st')
    → Reconciles opening st.stock
    → (sale : Sale) × (rows : List PreparedReturn) × (returned_rows dir actor dto st
        ≡ ok (sale, rows))
      × ((b p : ℕ)
          → (on_hand b p st'.stock.levels
              ≡ on_hand b p st.stock.levels + sum_of (put_back sale b p) rows)
            × (on_hand b p st'.stock.levels
                  + outgoing b p st'.stock.movements
                  + sum_of (marked sale b p) rows
                ≡ opening b p + incoming b p st'.stock.movements))
create-stock opening dir now id actor dto st {result} {st'} e h =
    let (sale, rows, prepared, moved) = create-IsReturned dir now id actor dto st e in
    (
      sale,
      rows,
      prepared,
      λ b p. (
        moved.raised b p,
        omega (arith, moved.raised b p, moved.logged b p, moved.kept b p, h b p),
      ),
    )
