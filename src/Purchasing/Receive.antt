-- ===== src/Purchasing/Receive.antt =====
-- `PurchasingService.receive`: goods of an approved order arrive.
use technova_pos_api.Purchasing.State.{GoodsReceipt}
use Prim.Native.Nat.{suc}
use technova_pos_api.Prelude.{
  suc, ℕ, ◌+◌, Bool, true, false, ◌&&◌, not, Option, none, some, List, [], ◌∷◌, ◌==◌, leb, any, all,
  find, update_many, if◌then◌else◌,
}
use technova_pos_api.Prelude.Text.{Text, text_eq, trim}
use technova_pos_api.Prelude.Result.{Result, ok, raise_if, ◌>>=◌, ◌>>◌, bad_request, conflict, lit}
use technova_pos_api.Directory.{Directory, User, organization_id}
use technova_pos_api.Stock.{Stock, UnitStatus, MovementType, Reference, put_stock, record_movement}
use technova_pos_api.Inventory.State.{audit}
use technova_pos_api.Inventory.Dispatch.{normalize_serial}
use technova_pos_api.Purchasing.State.{
  State, OrderItem, PurchaseOrder, PurchaseOrderStatus, ShipmentStatus, SupplierNotice,
  update_order, find_order,
}
use technova_pos_api.Purchasing.Prepare.{ReceiptRequest, Entropy, PreparedRow, prepare_rows}

-- `inventoryUnit.create` for each serial number; `serialNumber` is unique.
unfoldable pub create_units : Entropy → ℕ → PreparedRow → ℕ → List Text → Stock → Result Stock
create_units entropy branch row place [] st = ok st
create_units entropy branch row place (s ∷ ss) st = do
  raise_if (any (λ u. text_eq (normalize_serial s) u.serial) st.units)
      (conflict (lit "Receipt number, serial number, or QR identifier already exists."))
  create_units entropy branch row (suc place) ss (record st {
    units =
        record {
          id = entropy.unit_id row.item.id place;
          branch = branch;
          product = row.item.product;
          serial = normalize_serial s;
          status = UnitStatus.in_stock;
        }
        ∷ st.units;
  })

-- `stockLevel.upsert` and `stockMovement.create`
abbrev pub put_goods : User → ℕ → ℕ → PreparedRow → Stock → Stock
put_goods actor branch receipt row st =
    record_movement
      (record {
        branch = branch;
        product = row.item.product;
        unit = none;
        user = actor.id;
        kind = MovementType.purchase_receipt;
        quantity = row.input.quantity;
        reference = Reference.goods_receipt receipt;
        reason = none;
      })
      (put_stock branch row.item.product row.input.quantity st)

-- `purchaseOrderItem.update` with `receivedQuantity: { increment }`
abbrev pub receive_on : PreparedRow → List OrderItem → List OrderItem
receive_on row =
    update_many (λ i. i.id == row.item.id)
      (λ i. record i { received_quantity = i.received_quantity + row.input.quantity })

-- The loop, on the stock, the items of the order, and the rows of the receipt.
unfoldable pub store_rows :
    Entropy → User → PurchaseOrder → ℕ → List PreparedRow → State → Result State
store_rows entropy actor o receipt [] st = ok st
store_rows entropy actor o receipt (row ∷ rows) st = do
  stock ←
      create_units entropy o.branch row 0 row.serials
        (put_goods actor o.branch receipt row st.stock)
  store_rows entropy actor o receipt rows (record st {
    stock = stock;
    orders = update_order o.id (λ x. record x { items = receive_on row x.items }) st.orders;
    receipt_items =
        record {
          receipt = receipt;
          order_item = row.item.id;
          product = row.item.product;
          quantity = row.input.quantity;
          unit_cost = row.item.unit_cost;
        }
        ∷ st.receipt_items;
  })

-- `receivedQuantity >= quantity` of every item, as the loop left them.
abbrev pub is_received : OrderItem → Bool
is_received i = leb i.quantity i.received_quantity

abbrev pub order_items : ℕ → List PurchaseOrder → List OrderItem
order_items id orders = elim (find (λ o. o.id == id) orders) [ none ↦ [] | some o ↦ o.items ]

abbrev pub is_complete : ℕ → List PurchaseOrder → Bool
is_complete id orders = all is_received (order_items id orders)

abbrev is_dispatched : ShipmentStatus → Bool
is_dispatched ShipmentStatus.dispatched = true
is_dispatched _ = false

abbrev is_unread : SupplierNotice → Bool
is_unread n = elim n.read_at [ none ↦ true | some _ ↦ false ]

-- The statements behind the loop.
unfoldable pub finish : ℕ → ℕ → PurchaseOrder → State → State
finish now org o st =
    let done = is_complete o.id st.orders in
    let close = λ (x : PurchaseOrder). record x {
      status =
          if done then PurchaseOrderStatus.received else PurchaseOrderStatus.partially_received;
    } in
    record st {
      orders = update_order o.id close st.orders;
      shipments =
          update_many (λ s. done && s.order == o.id && is_dispatched s.status)
            (λ s. record s { status = ShipmentStatus.delivered; delivered_at = some now })
            st.shipments;
      notices =
          update_many
            (λ n.
              done
              && n.organization == org
              && n.supplier == o.supplier
              && n.order == o.id
              && is_unread n)
            (λ n. record n { read_at = some now }) st.notices;
    }

abbrev pub is_receivable : PurchaseOrderStatus → Bool
is_receivable PurchaseOrderStatus.approved = true
is_receivable PurchaseOrderStatus.partially_received = true
is_receivable _ = false

-- `dto.supplierInvoiceId && !selectedInvoice`
abbrev pub is_foreign_invoice : PurchaseOrder → Option ℕ → Bool
is_foreign_invoice o none = false
is_foreign_invoice o (some id) = not (any (λ v. v.id == id) o.invoices)

-- `number || undefined`
abbrev pub or_absent : Text → Option Text
or_absent [] = none
or_absent (c ∷ s) = some (c ∷ s)

abbrev pub written_number : Option Text → Option Text
written_number none = none
written_number (some s) = or_absent (trim s)

-- `selectedInvoice?.invoiceNumber ?? dto.supplierInvoiceNumber?.trim()`
abbrev pub invoice_number_of : PurchaseOrder → ReceiptRequest → Option Text
invoice_number_of o dto = elim dto.invoice [
  | none ↦ written_number dto.invoice_number
  | some id ↦ elim (find (λ v. v.id == id) o.invoices) [
    | none ↦ written_number dto.invoice_number
    | some v ↦ or_absent v.number
  ]
]

abbrev pub receipt_number : ReceiptRequest → Text
receipt_number dto = normalize_serial dto.number

abbrev pub receipt_row : ℕ → PurchaseOrder → ReceiptRequest → GoodsReceipt
receipt_row new_id o dto = record {
  id = new_id;
  branch = o.branch;
  order = o.id;
  number = receipt_number dto;
  invoice_number = invoice_number_of o dto;
}

-- `new_id` is the id that the database gives the receipt; `receiptNumber` is unique.
unfoldable pub receive :
    Entropy → Directory → ℕ → ℕ → User → ℕ → ReceiptRequest → State → Result State
receive entropy dir now new_id actor id dto st = do
  o ← find_order dir actor.id id st.orders
  raise_if (not (is_receivable o.status)) (conflict (lit "Purchase order is not ready to receive."))
  raise_if (is_foreign_invoice o dto.invoice)
      (bad_request (lit "Supplier invoice does not belong to this purchase order."))
  rows ← prepare_rows entropy dir o.items [] dto.items
  raise_if (any (λ r. text_eq (receipt_number dto) r.number) st.receipts)
      (conflict (lit "Receipt number, serial number, or QR identifier already exists."))
  org ← organization_id dir actor.id
  stored ←
      store_rows entropy actor o new_id rows
        (record st { receipts = receipt_row new_id o dto ∷ st.receipts })
  let finished = finish now org o stored
  ok (record finished { audits = audit actor "GOODS_RECEIPT_CREATED" id finished.audits })
