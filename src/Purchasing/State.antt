-- ===== src/Purchasing/State.antt =====
-- The tables that `PurchasingService` writes (prisma/schema.prisma: PurchaseOrder,
-- PurchaseOrderItem, GoodsReceipt, GoodsReceiptItem, and those of `Stock`).
use technova_pos_api.Prelude.{
  ℕ, Bool, true, false, Option, none, some, List, find, update_many, ◌&&◌, ◌==◌,
}
use technova_pos_api.Prelude.Int.{ℤ}
use technova_pos_api.Prelude.Text.{Text}
use technova_pos_api.Prelude.Result.{Result, or_raise, ◌>>=◌, not_found, lit}
use technova_pos_api.Directory.{Directory, AuditEvent, organization_id, find_branch}
use technova_pos_api.Stock.{Stock}

-- `enum PurchaseOrderStatus`
pub data PurchaseOrderStatus : Type 0 where
  draft submitted approved partially_received received cancelled : PurchaseOrderStatus

-- The unit cost, the discount and the tax in cents; the line total exact.
pub record OrderItem : Type 0 where
  pub id : ℕ
  pub product : ℕ
  pub quantity : ℕ
  pub received_quantity : ℕ
  pub unit_cost : ℕ
  pub discount : ℕ
  pub tax : ℕ
  pub line_total : ℤ

pub record SupplierInvoice : Type 0 where
  pub id : ℕ
  pub number : Text

pub record PurchaseOrder : Type 0 where
  pub id : ℕ
  pub branch : ℕ
  pub supplier : ℕ
  pub status : PurchaseOrderStatus
  pub approved_by : Option ℕ
  pub approved_at : Option ℕ
  pub subtotal : ℕ
  pub discount_total : ℕ
  pub tax_total : ℕ
  pub total : ℤ
  pub items : List OrderItem
  pub invoices : List SupplierInvoice

-- `enum SupplierShipmentStatus`
pub data ShipmentStatus : Type 0 where
  preparing dispatched delivered : ShipmentStatus

pub record Shipment : Type 0 where
  pub order : ℕ
  pub status : ShipmentStatus
  pub delivered_at : Option ℕ

-- A notification of one of the three supplier events, with the order that its link names.
pub record SupplierNotice : Type 0 where
  pub organization : ℕ
  pub supplier : ℕ
  pub order : ℕ
  pub read_at : Option ℕ

pub record GoodsReceipt : Type 0 where
  pub id : ℕ
  pub branch : ℕ
  pub order : ℕ
  pub number : Text
  pub invoice_number : Option Text

pub record GoodsReceiptItem : Type 0 where
  pub receipt : ℕ
  pub order_item : ℕ
  pub product : ℕ
  pub quantity : ℕ
  pub unit_cost : ℕ

pub record Supplier : Type 0 where
  pub id : ℕ
  pub organization : ℕ

pub record State : Type 0 where
  pub stock : Stock
  pub orders : List PurchaseOrder
  pub receipts : List GoodsReceipt
  pub receipt_items : List GoodsReceiptItem
  pub shipments : List Shipment
  pub notices : List SupplierNotice
  pub audits : List AuditEvent

abbrev pub update_order :
    ℕ → (PurchaseOrder → PurchaseOrder) → List PurchaseOrder → List PurchaseOrder
update_order id f = update_many (λ o. o.id == id) f

abbrev pub ordered_by : Directory → ℕ → PurchaseOrder → Bool
ordered_by dir org o = elim (find_branch dir org o.branch) [ none ↦ false | some _ ↦ true ]

-- `detail`, as the operations use it: the order, if its branch is of the user's organization.
unfoldable pub find_order : Directory → ℕ → ℕ → List PurchaseOrder → Result PurchaseOrder
find_order dir user id orders = do
  org ← organization_id dir user
  or_raise (find (λ o. o.id == id && ordered_by dir org o) orders)
      (not_found (lit "Purchase order not found."))
