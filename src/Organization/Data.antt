-- ===== src/Organization/Data.antt =====
-- The rows `OrganizationMember` and `Namespace` of app/models.py, and which namespaces a user may
-- use (`_namespace_filter` of app/utils/query_helpers.py).
use floww_backend.Prelude.{ℕ, Bool, false, ◌&&◌, ◌||◌, Option, none, some, List, any, ◌==◌}

pub data OrganizationRole : Type 0 where
  owner admin member : OrganizationRole

pub record OrganizationMember : Type 0 where
  pub id : ℕ
  pub organization_id : ℕ
  pub user_id : ℕ
  pub role : OrganizationRole

pub record Namespace : Type 0 where
  pub id : ℕ
  pub user_owner_id : Option ℕ
  pub organization_owner_id : Option ℕ

-- The primary key, and `uq_organization_user`.
unfoldable pub clash_member : OrganizationMember → OrganizationMember → Bool
clash_member a b =
    a.id == b.id || (a.organization_id == b.organization_id && a.user_id == b.user_id)

-- The membership of a user in an organization.
unfoldable pub of_user : ℕ → ℕ → OrganizationMember → Bool
of_user organization_id user_id m = m.organization_id == organization_id && m.user_id == user_id

-- `Namespace.organization_owner_id.in_(...)`, where the owner may be NULL.
unfoldable pub namespace_filter : List OrganizationMember → ℕ → Namespace → Bool
unfolding of_user
namespace_filter members user_id n = elim n.organization_owner_id [
  | none ↦ false
  | some organization_id ↦ any (of_user organization_id user_id) members
]

-- `Model.namespace.has(_namespace_filter(user_id))`
unfoldable pub in_namespace : List Namespace → List OrganizationMember → ℕ → ℕ → Bool
in_namespace namespaces members user_id namespace_id =
    any (λ n. n.id == namespace_id && namespace_filter members user_id n) namespaces
