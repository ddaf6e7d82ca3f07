-- ===== src/Kv/Data.antt =====
-- The rows of the key-value store: `Provider`, `KeyValueTable`, `KeyValueTablePermission`,
-- `KeyValueItem` and `Workflow` of app/models.py. Permissions and items are named by their unique
-- pairs of columns. `next_id` is what the generator of identifiers hands out next.
use floww_backend.Prelude.{ℕ, Bool, ◌&&◌, List, String, ◌==◌, str_eq}

pub record Provider : Type 0 where
  pub id : ℕ
  pub namespace_id : ℕ
  pub type : String
  pub alias : String

pub record KeyValueTable : Type 0 where
  pub id : ℕ
  pub provider_id : ℕ
  pub name : String

pub record Permission : Type 0 where
  pub table_id : ℕ
  pub workflow_id : ℕ
  pub can_read : Bool
  pub can_write : Bool
  pub created_at : ℕ

-- `value` is the JSON text of the value.
pub record Item : Type 0 where
  pub table_id : ℕ
  pub key : String
  pub value : String
  pub created_at : ℕ
  pub updated_at : ℕ

pub record Workflow : Type 0 where
  pub id : ℕ
  pub namespace_id : ℕ

pub record Db : Type 0 where
  pub next_id : ℕ
  pub providers : List Provider
  pub tables : List KeyValueTable
  pub permissions : List Permission
  pub items : List Item
  pub workflows : List Workflow

-- `WorkflowContext` of app/deps/workflow_auth.py: who calls.
pub record WorkflowContext : Type 0 where
  pub workflow_id : ℕ
  pub namespace_id : ℕ

unfoldable pub is_provider : ℕ → String → Provider → Bool
is_provider namespace_id alias p =
    p.namespace_id == namespace_id && (str_eq p.type "kvstore" && str_eq p.alias alias)

unfoldable pub is_table : ℕ → String → KeyValueTable → Bool
is_table provider_id name t = t.provider_id == provider_id && str_eq t.name name

unfoldable pub is_permission : ℕ → ℕ → Permission → Bool
is_permission table_id workflow_id p = p.table_id == table_id && p.workflow_id == workflow_id

unfoldable pub is_item : ℕ → String → Item → Bool
is_item table_id key i = i.table_id == table_id && str_eq i.key key

-- The unique constraints.
unfoldable pub clash_table : KeyValueTable → KeyValueTable → Bool
clash_table a b = a.provider_id == b.provider_id && str_eq a.name b.name

unfoldable pub clash_permission : Permission → Permission → Bool
clash_permission a b = a.table_id == b.table_id && a.workflow_id == b.workflow_id

unfoldable pub clash_item : Item → Item → Bool
clash_item a b = a.table_id == b.table_id && str_eq a.key b.key
