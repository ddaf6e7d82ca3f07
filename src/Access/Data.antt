-- ===== src/Access/Data.antt =====
-- The access rows: `AccessTuple`, `WorkflowFolder`, `Workflow` and their enums of app/models.py, and
-- the roles and results of app/services/access_service.py.
use floww_backend.Prelude.{
  ℕ, Bool, true, false, ◌&&◌, Option, List, String, leb, ◌==◌, if◌then◌else◌,
}

pub data AccessRole : Type 0 where
  owner user : AccessRole

pub data ResourceType : Type 0 where
  workflow folder provider : ResourceType

-- The members of the enum `PrincipleType`, of the same names as a role and two resource types.
pub data PrincipleType : Type 0 where
  user_principle workflow_principle folder_principle : PrincipleType

pub record AccessTuple : Type 0 where
  pub resource_type : ResourceType
  pub resource_id : ℕ
  pub principle_type : PrincipleType
  pub principle_id : ℕ
  pub role : AccessRole

pub record WorkflowFolder : Type 0 where
  pub id : ℕ
  pub namespace_id : ℕ
  pub name : String
  pub parent_folder_id : Option ℕ

pub record Workflow : Type 0 where
  pub id : ℕ
  pub parent_folder_id : Option ℕ

pub record Db : Type 0 where
  pub tuples : List AccessTuple
  pub folders : List WorkflowFolder
  pub workflows : List Workflow

pub record ResolvedAccess : Type 0 where
  pub principal_type : PrincipleType
  pub principal_id : ℕ
  pub resource_type : ResourceType
  pub resource_id : ℕ
  pub role : AccessRole
  pub inherited_from : Option ℕ

-- `ROLE_PRIORITY`
abbrev pub role_priority : AccessRole → ℕ
role_priority user = 1
role_priority owner = 2

unfoldable pub get_higher_role : AccessRole → AccessRole → AccessRole
get_higher_role a b = if leb (role_priority b) (role_priority a) then a else b

unfoldable pub role_meets_minimum : AccessRole → AccessRole → Bool
role_meets_minimum role min_role = leb (role_priority min_role) (role_priority role)

abbrev pub same_type : ResourceType → ResourceType → Bool
same_type workflow workflow = true
same_type folder folder = true
same_type provider provider = true
same_type _ _ = false

abbrev pub same_principle : PrincipleType → PrincipleType → Bool
same_principle user_principle user_principle = true
same_principle workflow_principle workflow_principle = true
same_principle folder_principle folder_principle = true
same_principle _ _ = false

-- The unique constraint `uq_access_principal_resource`.
unfoldable pub clash : AccessTuple → AccessTuple → Bool
clash a b =
    same_principle a.principle_type b.principle_type
    && (a.principle_id == b.principle_id
        && (same_type a.resource_type b.resource_type && a.resource_id == b.resource_id))
