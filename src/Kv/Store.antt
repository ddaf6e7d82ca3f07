-- ===== src/Kv/Store.antt =====
-- The helpers of app/routes/kv_store.py: providers, tables and permissions. Between the statements
-- of one transaction no other one is taken to commit.
use floww_backend.Prelude.{
  ℕ, ◌+◌, Bool, true, false, not, ◌&&◌, Option, none, some, List, [], ◌∷◌, ◌++◌, String, select,
  if◌then◌else◌,
}
use floww_backend.Session.{
  Session, pure, raise, lift, ok, http_exception, scalar_one_or_none, ◌>>=◌,
}
use floww_backend.Table.{remove}
use floww_backend.Kv.Data.{
  Provider, KeyValueTable, Permission, Item, Db, is_provider, is_table, is_permission, is_item,
  clash_permission, clash_item,
}

unfoldable pub get_or_create_kv_provider : ℕ → String → Session Db Provider
get_or_create_kv_provider namespace_id alias db =
    (do
      found ← lift (scalar_one_or_none (select (is_provider namespace_id alias) db.providers))
      elim found [
        | some p ↦ pure p
        | none ↦ λ d.
            let p : Provider = record {
              id = d.next_id;
              namespace_id = namespace_id;
              type = "kvstore";
              alias = alias;
            } in
            ok (p, record d { next_id = d.next_id + 1; providers = d.providers ++ p ∷ [] })
      ])
      db

unfoldable pub find_table : ℕ → String → Session Db (Option KeyValueTable)
find_table provider_id name db =
    lift (scalar_one_or_none (select (is_table provider_id name) db.tables)) db

unfoldable pub find_permission : ℕ → ℕ → Session Db (Option Permission)
find_permission table_id workflow_id db =
    lift (scalar_one_or_none (select (is_permission table_id workflow_id) db.permissions)) db

unfoldable pub find_item : ℕ → String → Session Db (Option Item)
find_item table_id key db = lift (scalar_one_or_none (select (is_item table_id key) db.items)) db

abbrev pub may_read : Option Permission → Bool
may_read none = false
may_read (some p) = p.can_read

abbrev pub may_write : Option Permission → Bool
may_write none = false
may_write (some p) = p.can_write

unfoldable pub get_table_with_permission :
    ℕ → String → ℕ → Bool → Bool → Session Db (KeyValueTable × Option Permission)
get_table_with_permission provider_id table_name workflow_id require_read require_write = do
  found ← find_table provider_id table_name
  elim found [
    | none ↦ raise (http_exception 404 "Table not found")
    | some table ↦ do
      permission ← find_permission table.id workflow_id
      if require_read && not (may_read permission)
          then raise (http_exception 403 "No read permission for table")
          else if require_write && not (may_write permission)
          then raise (http_exception 403 "No write permission for table")
          else pure (table, permission)
  ]

-- A new table, and full permissions for the workflow that creates it.
unfoldable pub create_table : ℕ → ℕ → String → ℕ → Session Db KeyValueTable
create_table now provider_id table_name workflow_id db =
    let table : KeyValueTable = record {
      id = db.next_id;
      provider_id = provider_id;
      name = table_name;
    } in
    let permission : Permission = record {
      table_id = db.next_id;
      workflow_id = workflow_id;
      can_read = true;
      can_write = true;
      created_at = now;
    } in
    ok (
      table,
      record db {
        next_id = db.next_id + 1;
        tables = db.tables ++ table ∷ [];
        permissions = db.permissions ++ permission ∷ [];
      },
    )

unfoldable pub get_or_create_table : ℕ → ℕ → String → ℕ → Session Db KeyValueTable
get_or_create_table now provider_id table_name workflow_id = do
  found ← find_table provider_id table_name
  elim found [
    | some table ↦ pure table
    | none ↦ create_table now provider_id table_name workflow_id
  ]

-- `INSERT ... ON CONFLICT (table_id, key) DO UPDATE SET value, updated_at = kv_items.updated_at`: of
-- a row that is there the value changes alone.
unfoldable pub write_item : ℕ → ℕ → String → String → List Item → List Item
write_item now table_id key value [] =
    record { table_id = table_id; key = key; value = value; created_at = now; updated_at = now }
    ∷ []
write_item now table_id key value (i ∷ items) =
    if is_item table_id key i
    then record i { value = value } ∷ items
    else i ∷ write_item now table_id key value items

-- The upsert of a permission.
unfoldable pub write_permission : ℕ → ℕ → ℕ → Bool → Bool → List Permission → List Permission
write_permission now table_id workflow_id can_read can_write [] =
    record {
      table_id = table_id;
      workflow_id = workflow_id;
      can_read = can_read;
      can_write = can_write;
      created_at = now;
    }
    ∷ []
write_permission now table_id workflow_id can_read can_write (p ∷ permissions) =
    if is_permission table_id workflow_id p
    then record p { can_read = can_read; can_write = can_write } ∷ permissions
    else p ∷ write_permission now table_id workflow_id can_read can_write permissions

unfoldable pub delete_item : Item → Session Db Unit
delete_item i db = ok (tt, record db { items = remove clash_item i db.items })

unfoldable pub delete_permission : Permission → Session Db Unit
delete_permission p db =
    ok (tt, record db { permissions = remove clash_permission p db.permissions })
