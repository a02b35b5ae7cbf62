-- ===== src/Stock.antt =====
-- The three tables that say where goods are (prisma/schema.prisma: StockLevel, InventoryUnit,
-- StockMovement), and the statements that the services run on them. Quantities are thousandths, as
-- the columns hold them (`Decimal(18, 3)`).
pub mod Ledger
use technova_pos_api.Prelude.{
  ℕ, ◌+◌, ◌-◌, Bool, true, false, ◌&&◌, Option, none, some, List, [], ◌∷◌, ◌++◌, ◌==◌, leb,
  if◌then◌else◌, update_many,
}
use technova_pos_api.Prelude.Text.{Text}
use mathlib.Core.Option

-- One whole piece.
abbrev pub piece : ℕ
piece = 1000

pub record StockLevel : Type 0 where
  pub branch : ℕ
  pub product : ℕ
  pub on_hand : ℕ
  pub reserved : ℕ

-- `enum InventoryUnitStatus`
pub data UnitStatus : Type 0 where
  in_stock reserved sold returned damaged lost : UnitStatus

pub record InventoryUnit : Type 0 where
  pub id : ℕ
  pub branch : ℕ
  pub product : ℕ
  pub serial : Text
  pub status : UnitStatus

-- `enum StockMovementType`
pub data MovementType : Type 0 where
  purchase_receipt sale return_in return_out : MovementType
  adjustment_in adjustment_out transfer_in transfer_out : MovementType

-- `referenceType` with `referenceId`
pub data Reference : Type 0 where
  no_reference : Reference
  stock_transfer goods_receipt sale return : ℕ → Reference

pub record StockMovement : Type 0 where
  pub branch : ℕ
  pub product : ℕ
  pub unit : Option ℕ
  pub user : ℕ
  pub kind : MovementType
  pub quantity : ℕ
  pub reference : Reference
  pub reason : Option Text

pub record Stock : Type 0 where
  pub levels : List StockLevel
  pub units : List InventoryUnit
  pub movements : List StockMovement

abbrev pub is_in_stock : UnitStatus → Bool
is_in_stock UnitStatus.in_stock = true
is_in_stock _ = false

-- `@@unique([branchId, productId])`: the first row found is the only one.
abbrev pub level_at : ℕ → ℕ → StockLevel → Bool
level_at b p l = l.branch == b && l.product == p

-- `stockLevel.upsert` with `quantityOnHand: { increment }`
unfoldable pub put_level : ℕ → ℕ → ℕ → List StockLevel → List StockLevel
put_level b p q [] = record { branch = b; product = p; on_hand = q; reserved = 0 } ∷ []
put_level b p q (l ∷ ls) =
    if level_at b p l then record l { on_hand = l.on_hand + q } ∷ ls else l ∷ put_level b p q ls

-- `stockLevel.updateMany` where `quantityOnHand >= q`, with `{ decrement: q }`; `none` is a count
-- of zero changed rows.
unfoldable pub take_level : ℕ → ℕ → ℕ → List StockLevel → Option (List StockLevel)
take_level b p q [] = none
take_level b p q (l ∷ ls) =
    if level_at b p l
    then (if leb q l.on_hand then some (record l { on_hand = l.on_hand - q } ∷ ls) else none)
    else Option.map (λ rest. l ∷ rest) (take_level b p q ls)

abbrev pub put_stock : ℕ → ℕ → ℕ → Stock → Stock
put_stock b p q st = record st { levels = put_level b p q st.levels }

abbrev pub take_stock : ℕ → ℕ → ℕ → Stock → Option Stock
take_stock b p q st = Option.map (λ ls. record st { levels = ls }) (take_level b p q st.levels)

-- `stockMovement.create`
abbrev pub record_movement : StockMovement → Stock → Stock
record_movement m st = record st { movements = m ∷ st.movements }

-- `inventoryUnit.update` where `id`
abbrev pub update_unit : ℕ → (InventoryUnit → InventoryUnit) → Stock → Stock
update_unit id f st = record st { units = update_many (λ u. u.id == id) f st.units }
