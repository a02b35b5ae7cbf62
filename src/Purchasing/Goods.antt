-- ===== src/Purchasing/Goods.antt =====
-- The stock under `PurchasingService.receive`.
use technova_pos_api.Inventory.Receive.{units_sent}
use mathlib.Core.Path.{subst}
use technova_pos_api.Prelude.{
  ◌∙◌, ℕ, suc, ◌+◌, ◌≡◌, refl, sym, ap, List, [], ◌∷◌, ◌==◌, sum_of, arith, if◌then◌else◌, any,
}
use technova_pos_api.Prelude.Text.{Text, text_eq}
use technova_pos_api.Prelude.Result.{ok, >>=-eq-ok, ok-injective, raise_if, conflict, lit}
use technova_pos_api.Directory.{Directory, User}
use technova_pos_api.Stock.{Stock}
use technova_pos_api.Stock.Ledger.{
  on_hand, on_hand-put_level, Keeps, Keeps-trans, Reconciles, Reconciles-Keeps,
}
use technova_pos_api.Inventory.Dispatch.{normalize_serial}
use technova_pos_api.Purchasing.State.{State, PurchaseOrder, find_order}
use technova_pos_api.Purchasing.Prepare.{Entropy, PreparedRow, ReceiptRequest, prepare_rows}
use technova_pos_api.Purchasing.Receive.{create_units, put_goods, store_rows, receive}
use technova_pos_api.Purchasing.Receipt.{receive-IsReceipt}

-- What the rows bring of a product.
abbrev pub delivered : ℕ → List PreparedRow → ℕ
delivered p = sum_of (λ r. if r.item.product == p then r.input.quantity else 0)

-- Only units are new.
record IsUnitStep (st st' : Stock) : Type 0 where
  levels : st'.levels ≡ st.levels
  movements : st'.movements ≡ st.movements

create_units-IsUnitStep :
    (entropy : Entropy) (branch : ℕ) (row : PreparedRow) (place : ℕ) (ss : List Text) (st : Stock)
    {st' : Stock}
    → create_units entropy branch row place ss st ≡ ok st'
    → IsUnitStep st st'
unfolding create_units
create_units-IsUnitStep entropy branch row place [] st e = record {
  levels = ap (λ (x : Stock). x.levels) (sym (ok-injective e));
  movements = ap (λ (x : Stock). x.movements) (sym (ok-injective e));
}
create_units-IsUnitStep entropy branch row place (s ∷ ss) st e =
    let (_, _, rest) =
      >>=-eq-ok
        (raise_if (any (λ u. text_eq (normalize_serial s) u.serial) st.units)
          (conflict (lit "Receipt number, serial number, or QR identifier already exists.")))
        _ e in
    let tail = create_units-IsUnitStep entropy branch row (suc place) ss _ rest in
    record { levels = tail.levels; movements = tail.movements }

-- What a receipt of the given quantities does to the stock.
pub record IsDelivered (branch : ℕ) (arrived : ℕ → ℕ) (st st' : Stock) : Type 0 where
  pub placed :
      (b p : ℕ)
      → on_hand b p st'.levels ≡ on_hand b p st.levels + (if branch == b then arrived p else 0)
  pub logged : Keeps st st'
  pub unsent : (id q : ℕ) → units_sent id q st'.movements ≡ units_sent id q st.movements

abbrev line_quantity : PreparedRow → ℕ → ℕ
line_quantity row p = if row.item.product == p then row.input.quantity else 0

stored-IsDelivered :
    (entropy : Entropy) (actor : User) (branch receipt : ℕ) (row : PreparedRow) (st : Stock)
    {st' : Stock}
    → create_units entropy branch row 0 row.serials (put_goods actor branch receipt row st) ≡ ok st'
    → IsDelivered branch (line_quantity row) st st'
unfolding units_sent
stored-IsDelivered entropy actor branch receipt row st e =
    let new =
      create_units-IsUnitStep entropy branch row 0 row.serials
        (put_goods actor branch receipt row st) e in
    record {
      placed = λ b p. ground (
        arith,
        new.levels,
        on_hand-put_level branch row.item.product row.input.quantity b p st.levels,
      );
      logged = λ b p. ground (
        arith,
        new.levels,
        new.movements,
        on_hand-put_level branch row.item.product row.input.quantity b p st.levels,
      );
      unsent = λ id q. ground (arith, new.movements);
    }

store_rows-IsDelivered :
    (entropy : Entropy) (actor : User) (o : PurchaseOrder) (receipt : ℕ) (rows : List PreparedRow)
    (st : State) {st' : State}
    → store_rows entropy actor o receipt rows st ≡ ok st'
    → IsDelivered o.branch (λ p. delivered p rows) st.stock st'.stock
unfolding store_rows
store_rows-IsDelivered entropy actor o receipt [] st e =
    subst (IsDelivered o.branch (λ p. 0) st.stock) (ap (λ (x : State). x.stock) (ok-injective e))
      (record { placed = λ b p. ground arith; logged = λ b p. refl; unsent = λ id q. refl })
store_rows-IsDelivered entropy actor o receipt (row ∷ rows) st {st'} e =
    let (stock, stored, rest) =
      >>=-eq-ok
        (create_units entropy o.branch row 0 row.serials
          (put_goods actor o.branch receipt row st.stock))
        _ e in
    let first = stored-IsDelivered entropy actor o.branch receipt row st.stock stored in
    let others = store_rows-IsDelivered entropy actor o receipt rows _ rest in
    record {
      placed = λ b p. ground (arith, first.placed b p, others.placed b p);
      logged = Keeps-trans st.stock stock st'.stock first.logged others.logged;
      unsent = λ id q. others.unsent id q ∙ first.unsent id q;
    }

-- What an accepted receipt does to the stock, with its order and its rows.
pub receive-delivered :
    (entropy : Entropy) (dir : Directory) (now new_id : ℕ) (actor : User) (id : ℕ)
    (dto : ReceiptRequest) (st : State) {st' : State}
    → receive entropy dir now new_id actor id dto st ≡ ok st'
    → (o : PurchaseOrder) × (rows : List PreparedRow) × (find_order dir actor.id id st.orders
        ≡ ok o)
      × (prepare_rows entropy dir o.items [] dto.items ≡ ok rows)
      × IsDelivered o.branch (λ p. delivered p rows) st.stock st'.stock
receive-delivered entropy dir now new_id actor id dto st {st'} e =
    let r = receive-IsReceipt entropy dir now new_id actor id dto st e in
    let d = store_rows-IsDelivered entropy actor r.order new_id r.rows r.entered r.stored_rows in
    (
      r.order,
      r.rows,
      r.found,
      r.prepared,
      subst (λ s. IsDelivered r.order.branch (λ p. delivered p r.rows) s st'.stock) r.same_stock
          (subst (IsDelivered r.order.branch (λ p. delivered p r.rows) r.entered.stock)
            (sym r.end_stock) d),
    )

-- An accepted receipt raises the quantities at the order's branch by exactly what its rows list,
-- and changes no other quantity. Its movements explain the change: a log that agreed with the
-- quantities still does.
pub receive-goods :
    (opening : ℕ → ℕ → ℕ) (entropy : Entropy) (dir : Directory) (now new_id : ℕ) (actor : User)
    (id : ℕ) (dto : ReceiptRequest) (st : State) {st' : State}
    → receive entropy dir now new_id actor id dto st ≡ ok st'
    → Reconciles opening st.stock
    → (o : PurchaseOrder) × (rows : List PreparedRow) × (find_order dir actor.id id st.orders
        ≡ ok o)
      × (prepare_rows entropy dir o.items [] dto.items ≡ ok rows)
      × ((b p : ℕ)
          → on_hand b p st'.stock.levels
            ≡ on_hand b p st.stock.levels + (if o.branch == b then delivered p rows else 0))
      × Reconciles opening st'.stock
receive-goods opening entropy dir now new_id actor id dto st {st'} e h =
    let (o, rows, found, prepared, d) =
      receive-delivered entropy dir now new_id actor id dto st e in
    (o, rows, found, prepared, d.placed, Reconciles-Keeps opening st.stock st'.stock d.logged h)
