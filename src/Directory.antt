-- ===== src/Directory.antt =====
-- The rows that every service reads first: who belongs to which organization, its branches and its
-- products (prisma/schema.prisma), and the signed-in user (src/common/auth).
use technova_pos_api.Prelude.{ℕ, Bool, true, false, ◌&&◌, Option, List, ◌==◌, find, String}
use technova_pos_api.Prelude.Result.{Result, ok, or_raise, ◌>>=◌, not_found, lit}

-- `enum RecordStatus`
pub data RecordStatus : Type 0 where
  active inactive archived : RecordStatus

abbrev pub is_active : RecordStatus → Bool
is_active RecordStatus.active = true
is_active _ = false

-- `OrganizationUser`: a user has one organization.
pub record Member : Type 0 where
  pub user : ℕ
  pub organization : ℕ

pub record Branch : Type 0 where
  pub id : ℕ
  pub organization : ℕ
  pub status : RecordStatus
  -- the users assigned to the branch
  pub users : List ℕ

-- The columns of `Product` that stock keeping reads.
pub record Product : Type 0 where
  pub id : ℕ
  pub organization : ℕ
  pub track_serials : Bool

pub record Directory : Type 0 where
  pub members : List Member
  pub branches : List Branch
  pub products : List Product

-- `AuthenticatedUser`
pub record User : Type 0 where
  pub id : ℕ
  -- whether the roles hold 'SUPER_ADMIN'
  pub super_admin : Bool

-- `organizationId`, `org`: the organization of the acting user.
unfoldable pub organization_id : Directory → ℕ → Result ℕ
organization_id dir user = do
  m ← or_raise (find (λ m. m.user == user) dir.members) (not_found (lit "Organization not found."))
  ok m.organization

unfoldable pub find_product : Directory → ℕ → ℕ → Option Product
find_product dir org id = find (λ p. p.id == id && p.organization == org) dir.products

unfoldable pub find_branch : Directory → ℕ → ℕ → Option Branch
find_branch dir org id = find (λ b. b.id == id && b.organization == org) dir.branches

-- An entry that `AuditService.record` writes: who, what, and the id of the row it is about.
pub record AuditEvent : Type 0 where
  pub user : ℕ
  pub action : String
  pub subject : ℕ
