-- ===== src/Portal/State.antt =====
-- The tables that the supplier portal reads and writes (prisma/schema.prisma), and the requests
-- (src/modules/suppliers/dto/supplier-portal.dto.ts).
use technova_pos_api.Directory.{RecordStatus, AuditEvent}
use technova_pos_api.Prelude.{List, Option, Bool, ℕ}
use technova_pos_api.Purchasing.State.{PurchaseOrder, Shipment}

-- `enum SupplierResponseStatus`
pub data ResponseStatus : Type 0 where
  accepted changes_proposed rejected clarification_requested : ResponseStatus

-- `enum SupplierResponseReviewStatus`
pub data ReviewStatus : Type 0 where
  not_required pending approved rejected : ReviewStatus

pub record SupplierUser : Type 0 where
  pub user : ℕ
  pub supplier : ℕ

-- `changes` is `allowOrderChanges`, which may be left to the organization.
pub record PortalSupplier : Type 0 where
  pub id : ℕ
  pub organization : ℕ
  pub portal_enabled : Bool
  pub status : RecordStatus
  pub changes : Option Bool

pub record PortalOrganization : Type 0 where
  pub id : ℕ
  pub portal_enabled : Bool
  pub changes_enabled : Bool

-- Quantities in thousandths, unit costs in cents.
pub record ResponseLine : Type 0 where
  pub item : ℕ
  pub quantity : Option ℕ
  pub unit_cost : Option ℕ

pub record SupplierResponse : Type 0 where
  pub id : ℕ
  pub order : ℕ
  pub responded_by : ℕ
  pub status : ResponseStatus
  pub review : ReviewStatus
  pub lines : List ResponseLine
  pub reviewed_by : Option ℕ
  pub reviewed_at : Option ℕ

-- The responses stand with the last one first.
pub record State : Type 0 where
  pub orders : List PurchaseOrder
  pub responses : List SupplierResponse
  pub shipments : List Shipment
  pub audits : List AuditEvent

-- What the portal only reads.
pub record Access : Type 0 where
  pub users : List SupplierUser
  pub suppliers : List PortalSupplier
  pub organizations : List PortalOrganization

pub record ResponseRequest : Type 0 where
  pub status : ResponseStatus
  pub lines : Option (List ResponseLine)
