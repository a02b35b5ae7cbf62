-- ===== src/Purchasing/Receipt.antt =====
-- What a receipt leaves in the order that it belongs to.
use technova_pos_api.Prelude.{none, some}
use technova_pos_api.Purchasing.Received.{
  IsWithin, IsKeyed, receive_all, Leaves, receive_all-IsWithin, prepare_rows-fits,
}
use mathlib.Core.Path.{subst}
use technova_pos_api.Prelude.{refl, all, find, Option, any, not}
use technova_pos_api.Prelude.Text.{text_eq}
use technova_pos_api.Prelude.Result.{conflict}
use technova_pos_api.Directory.{User, organization_id}
use technova_pos_api.Purchasing.State.{
  State, PurchaseOrder, PurchaseOrderStatus, find_order, update_order,
}
use technova_pos_api.Purchasing.Prepare.{ReceiptRequest}
use technova_pos_api.Purchasing.Receive.{
  create_units, put_goods, store_rows, finish, is_received, is_complete, receive, is_receivable,
  is_foreign_invoice, receipt_number, receipt_row,
}
use technova_pos_api.Prelude.{find-test}
use technova_pos_api.Prelude.Result.{
  ok, >>=-eq-ok, ok-injective, raise_if, raise_if-ok, bad_request, lit,
}
use technova_pos_api.Purchasing.Prepare.{find_item}
use technova_pos_api.Prelude.{
  find-test, ℕ, ◌≡◌, sym, ap, ◌∙◌, List, [], ◌∷◌, ◌==◌, arith, All, true, if◌then◌else◌, some,
}
use technova_pos_api.Prelude.Result.{ok, >>=-eq-ok}
use technova_pos_api.Directory.{Directory}
use technova_pos_api.Purchasing.State.{OrderItem}
use technova_pos_api.Purchasing.Prepare.{
  Entropy, ReceiptInput, PreparedRow, find_item, prepare_rows,
}
use technova_pos_api.Purchasing.Receive.{receive_on}

-- `findUnique` where `id`
abbrev pub order_at : ℕ → List PurchaseOrder → Option PurchaseOrder
order_at id orders = find (λ o. o.id == id) orders

order_at-update_order :
    (id : ℕ) (f : PurchaseOrder → PurchaseOrder) (orders : List PurchaseOrder) {o : PurchaseOrder}
    → ((x : PurchaseOrder) → (f x).id ≡ x.id)
    → order_at id orders ≡ some o
    → order_at id (update_order id f orders) ≡ some (f o)
order_at-update_order id f [] same e = cc
order_at-update_order id f (x ∷ xs) {o} same e =
    ground (arith, same x, order_at-update_order id f xs {o = o} same)

abbrev received_by : List PreparedRow → PurchaseOrder → PurchaseOrder
received_by rows o = record o { items = receive_all rows o.items }

store_rows-order :
    (entropy : Entropy) (actor : User) (o x : PurchaseOrder) (receipt : ℕ) (rows : List PreparedRow)
    (st : State) {st' : State}
    → store_rows entropy actor o receipt rows st ≡ ok st'
    → order_at o.id st.orders ≡ some x
    → order_at o.id st'.orders ≡ some (received_by rows x)
unfolding store_rows
store_rows-order entropy actor o x receipt [] st e found =
    ap (λ (s : State). order_at o.id s.orders) (sym (ok-injective e)) ∙ found
store_rows-order entropy actor o x receipt (row ∷ rows) st e found =
    let (stock, stored, rest) =
      >>=-eq-ok
        (create_units entropy o.branch row 0 row.serials
          (put_goods actor o.branch receipt row st.stock))
        _ e in
    let receive_row = λ (y : PurchaseOrder). record y { items = receive_on row y.items } in
    store_rows-order entropy actor o (receive_row x) receipt rows _ rest
      (order_at-update_order o.id receive_row st.orders (λ y. refl) found)

-- The status that an order has after a receipt.
abbrev pub status_of : List OrderItem → PurchaseOrderStatus
status_of items =
    if all is_received items
    then PurchaseOrderStatus.received
    else PurchaseOrderStatus.partially_received

finish-order :
    (now org : ℕ) (o x : PurchaseOrder) (st : State)
    → order_at o.id st.orders ≡ some x
    → order_at o.id (finish now org o st).orders ≡ some (record x { status = status_of x.items })
unfolding finish
finish-order now org o x st found =
    let status =
      (if is_complete o.id st.orders
        then PurchaseOrderStatus.received
        else PurchaseOrderStatus.partially_received) in
    order_at-update_order o.id (λ y. record y { status = status }) st.orders (λ y. refl) found
    ∙ ap
        (λ (row : Option PurchaseOrder).
          some (record x { status = status_of (elim row [ none ↦ [] | some y ↦ y.items ]) }))
        found

finish-stock :
    (now org : ℕ) (o : PurchaseOrder) (st : State) → (finish now org o st).stock ≡ st.stock
unfolding finish
finish-stock now org o st = refl

-- The steps of a successful receipt.
pub record IsReceipt (entropy : Entropy) (dir : Directory) (now new_id : ℕ) (actor : User) (id : ℕ)
    (dto : ReceiptRequest) (st st' : State) : Type 0 where
  pub order : PurchaseOrder
  pub rows : List PreparedRow
  pub org : ℕ
  pub entered : State
  pub stored : State
  pub found : find_order dir actor.id id st.orders ≡ ok order
  pub receivable : is_receivable order.status ≡ true
  pub prepared : prepare_rows entropy dir order.items [] dto.items ≡ ok rows
  pub same_stock : entered.stock ≡ st.stock
  pub same_orders : entered.orders ≡ st.orders
  pub stored_rows : store_rows entropy actor order new_id rows entered ≡ ok stored
  pub end_stock : st'.stock ≡ stored.stock
  pub end_orders : st'.orders ≡ (finish now org order stored).orders

pub receive-IsReceipt :
    (entropy : Entropy) (dir : Directory) (now new_id : ℕ) (actor : User) (id : ℕ)
    (dto : ReceiptRequest) (st : State) {st' : State}
    → receive entropy dir now new_id actor id dto st ≡ ok st'
    → IsReceipt entropy dir now new_id actor id dto st st'
unfolding receive
receive-IsReceipt entropy dir now new_id actor id dto st {st'} e =
    let (o, found, e1) = >>=-eq-ok (find_order dir actor.id id st.orders) _ e in
    let (_, ready, e2) =
      >>=-eq-ok
        (raise_if (not (is_receivable o.status))
          (conflict (lit "Purchase order is not ready to receive.")))
        _ e1 in
    let (_, _, e3) =
      >>=-eq-ok
        (raise_if (is_foreign_invoice o dto.invoice)
          (bad_request (lit "Supplier invoice does not belong to this purchase order.")))
        _ e2 in
    let (rows, prepared, e4) = >>=-eq-ok (prepare_rows entropy dir o.items [] dto.items) _ e3 in
    let (_, _, e5) =
      >>=-eq-ok
        (raise_if (any (λ r. text_eq (receipt_number dto) r.number) st.receipts)
          (conflict (lit "Receipt number, serial number, or QR identifier already exists.")))
        _ e4 in
    let (org, known, e6) = >>=-eq-ok (organization_id dir actor.id) _ e5 in
    let entered = record st { receipts = receipt_row new_id o dto ∷ st.receipts } in
    let (stored, stored_rows, e7) =
      >>=-eq-ok (store_rows entropy actor o new_id rows entered) _ e6 in
    let closed = raise_if-ok _ _ ready in
    record {
      order = o;
      rows = rows;
      org = org;
      entered = entered;
      stored = stored;
      found = found;
      receivable = ground (arith, closed);
      prepared = prepared;
      same_stock = refl;
      same_orders = refl;
      stored_rows = stored_rows;
      end_stock =
          ap (λ (x : State). x.stock) (sym (ok-injective e7)) ∙ finish-stock now org o stored;
      end_orders = ap (λ (x : State). x.orders) (sym (ok-injective e7));
    }

All-Leaves :
    (entropy : Entropy) (dir : Directory) (items : List OrderItem) (inputs : List ReceiptInput)
    (rows : List PreparedRow)
    → prepare_rows entropy dir items [] inputs ≡ ok rows
    → (is : List OrderItem) → All (λ i. find_item i.id items ≡ some i) is
    → All IsWithin is
    → All (Leaves rows) is
All-Leaves entropy dir items inputs rows e [] keyed within = tt
All-Leaves entropy dir items inputs rows e (i ∷ is) keyed within = (
  (prepare_rows-fits entropy dir items [] inputs i keyed.0 within.0 e).1,
  All-Leaves entropy dir items inputs rows e is keyed.1 within.1,
)

-- If no item of an order had come in beyond its quantity, then none has after an accepted receipt,
-- and the receipt leaves the order received if all its items are there in full, and partially
-- received if not. The order is the row of its id, and each of its items is the row of its own id.
pub receive-order :
    (entropy : Entropy) (dir : Directory) (now new_id : ℕ) (actor : User) (id : ℕ)
    (dto : ReceiptRequest) (o : PurchaseOrder) (st : State) {st' : State}
    → receive entropy dir now new_id actor id dto st ≡ ok st'
    → find_order dir actor.id id st.orders ≡ ok o
    → order_at id st.orders ≡ some o
    → IsKeyed o.items
    → All IsWithin o.items
    → (o' : PurchaseOrder) × (order_at id st'.orders ≡ some o')
      × All IsWithin o'.items
      × (o'.status ≡ status_of o'.items)
receive-order entropy dir now new_id actor id dto o st {st'} e found at_id keyed within =
    let r = receive-IsReceipt entropy dir now new_id actor id dto st e in
    let same : r.order ≡ o = ok-injective (sym r.found ∙ found) in
    let named = find-test (λ x. x.id == id) st.orders at_id in
    let is_id : r.order.id ≡ id = rw same (ground (arith, named)) in
    let prepared =
      subst (λ x. prepare_rows entropy dir x.items [] dto.items ≡ ok r.rows) same r.prepared in
    let leaves = All-Leaves entropy dir o.items dto.items r.rows prepared o.items keyed within in
    let entered_at : order_at r.order.id r.entered.orders ≡ some o =
      rw (r.same_orders, is_id) at_id in
    let stored_at =
      store_rows-order entropy actor r.order o new_id r.rows r.entered r.stored_rows entered_at in
    let end_at = finish-order now r.org r.order (received_by r.rows o) r.stored stored_at in
    let items = receive_all r.rows o.items in
    (
      record o { items = items; status = status_of items },
      ap (order_at id) r.end_orders
          ∙ subst
              (λ k.
                order_at k (finish now r.org r.order r.stored).orders
                ≡ some (record o { items = items; status = status_of items }))
              is_id end_at,
      receive_all-IsWithin r.rows o.items leaves,
      refl,
    )
