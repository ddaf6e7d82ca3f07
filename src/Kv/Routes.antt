-- ===== src/Kv/Routes.antt =====
-- The endpoints of app/routes/kv_store.py. A listing `ORDER BY` is `sort_by_text`, an insertion
-- sort by an order that the database's collation gives.
use floww_backend.Prelude.{
  ℕ, Bool, true, false, not, ◌&&◌, Option, none, some, List, [], ◌∷◌, String, ◌==◌, select, any,
  find, is_some, map, if◌then◌else◌,
}
use floww_backend.Session.{
  Session, pure, raise, lift, gets, ok, http_exception, scalar_one_or_none, ◌>>=◌, ◌>>◌,
}
use floww_backend.Kv.Data.{
  KeyValueTable, Permission, Item, Workflow, Db, WorkflowContext, is_permission, is_item,
}
use floww_backend.Kv.Names.{validate_table_name, validate_key, validate_value_size}
use floww_backend.Kv.Store.{
  get_or_create_kv_provider, find_permission, find_item, may_write, get_table_with_permission,
  get_or_create_table, write_item, write_permission, delete_item, delete_permission,
}

unfoldable pub insert_sorted : {A : Type 0} → (A → A → Bool) → A → List A → List A
insert_sorted before a [] = a ∷ []
insert_sorted before a (b ∷ bs) = if before b a then b ∷ insert_sorted before a bs else a ∷ b ∷ bs

unfoldable pub sort_by : {A : Type 0} → (A → A → Bool) → List A → List A
unfolding insert_sorted
sort_by before [] = []
sort_by before (a ∷ as') = insert_sorted before a (sort_by before as')

of_table : ℕ → Item → Bool
of_table table_id i = i.table_id == table_id

in_namespace : ℕ → ℕ → Workflow → Bool
in_namespace workflow_id namespace_id w = w.id == workflow_id && w.namespace_id == namespace_id

-- The join of the tables of a provider with the permissions of a workflow.
readable : ℕ → ℕ → List Permission → KeyValueTable → Bool
readable provider_id workflow_id permissions t =
    t.provider_id == provider_id && any (is_permission t.id workflow_id) permissions

module _ (before : String → String → Bool) (ctx : WorkflowContext) where
  unfoldable pub list_tables : String → Session Db (List String)
  unfolding readable
  list_tables provider = do
    kv_provider ← get_or_create_kv_provider ctx.namespace_id provider
    db ← gets (λ (d : Db). d)
    pure (
        sort_by before (
          map (λ (t : KeyValueTable). t.name)
            (select (readable kv_provider.id ctx.workflow_id db.permissions) db.tables)))

  unfoldable pub list_keys : String → String → Session Db (List Item)
  unfolding of_table
  list_keys provider table = do
    validate_table_name table
    kv_provider ← get_or_create_kv_provider ctx.namespace_id provider
    found ← get_table_with_permission kv_provider.id table ctx.workflow_id true false
    db ← gets (λ (d : Db). d)
    pure (sort_by (λ (a b : Item). before a.key b.key) (select (of_table found.0.id) db.items))

module _ (ctx : WorkflowContext) where
  unfoldable pub list_permissions : String → String → Session Db (List Permission)
  list_permissions provider table = do
    validate_table_name table
    kv_provider ← get_or_create_kv_provider ctx.namespace_id provider
    found ← get_table_with_permission kv_provider.id table ctx.workflow_id true false
    db ← gets (λ (d : Db). d)
    pure (select (λ (p : Permission). p.table_id == found.0.id) db.permissions)

  unfoldable pub grant_permission : ℕ → String → String → ℕ → Bool → Bool → Session Db Unit
  unfolding in_namespace
  grant_permission now provider table workflow_id can_read can_write = do
    validate_table_name table
    kv_provider ← get_or_create_kv_provider ctx.namespace_id provider
    found ← get_table_with_permission kv_provider.id table ctx.workflow_id false true
    target ← λ (db : Db).
        lift (scalar_one_or_none (select (in_namespace workflow_id ctx.namespace_id) db.workflows))
          db
    if not (is_some target)
        then raise (http_exception 404 "Workflow not found in this namespace")
        else λ db. ok (
          tt,
          record db {
            permissions =
                write_permission now found.0.id workflow_id can_read can_write db.permissions;
          },
        )

  unfoldable pub revoke_permission : String → String → ℕ → Session Db Unit
  revoke_permission provider table workflow_id = do
    validate_table_name table
    kv_provider ← get_or_create_kv_provider ctx.namespace_id provider
    found ← get_table_with_permission kv_provider.id table ctx.workflow_id false true
    permission ← find_permission found.0.id workflow_id
    elim permission [
      | none ↦ raise (http_exception 404 "No permission found for workflow")
      | some p ↦ delete_permission p
    ]

  unfoldable pub get_value : String → String → String → Session Db Item
  get_value provider table key = do
    validate_table_name table
    validate_key key
    kv_provider ← get_or_create_kv_provider ctx.namespace_id provider
    found ← get_table_with_permission kv_provider.id table ctx.workflow_id true false
    item ← find_item found.0.id key
    elim item [ none ↦ raise (http_exception 404 "Key not found in table") | some i ↦ pure i ]

  -- The upsert returns the row that it wrote.
  unfoldable pub upsert_item : ℕ → ℕ → String → String → Session Db (Option Item)
  upsert_item now table_id key value db =
      let items = write_item now table_id key value db.items in
      ok (find (is_item table_id key) items, record db { items = items })

  unfoldable pub set_value : ℕ → String → String → String → String → Session Db (Option Item)
  set_value now provider table key value = do
    checked ← validate_value_size value
    validate_table_name table
    validate_key key
    kv_provider ← get_or_create_kv_provider ctx.namespace_id provider
    kv_table ← get_or_create_table now kv_provider.id table ctx.workflow_id
    permission ← find_permission kv_table.id ctx.workflow_id
    if not (may_write permission)
        then raise (http_exception 403 "No write permission for table")
        else upsert_item now kv_table.id key checked

  unfoldable pub delete_value : String → String → String → Session Db Unit
  delete_value provider table key = do
    validate_table_name table
    validate_key key
    kv_provider ← get_or_create_kv_provider ctx.namespace_id provider
    found ← get_table_with_permission kv_provider.id table ctx.workflow_id false true
    item ← find_item found.0.id key
    elim item [
      | none ↦ raise (http_exception 404 "Key not found in table")
      | some i ↦ delete_item i
    ]
