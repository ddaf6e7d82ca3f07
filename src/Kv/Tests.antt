-- ===== src/Kv/Tests.antt =====
-- Runs of the key-value store on small tables.
use floww_backend.Prelude.{
  none, ℕ, ◌≡◌, ◌≤◌, ◌↔◌, refl, true, ◌&&◌, ◌==◌, Option, some, String, [], ◌∷◌, str_eq, find,
  length, if◌then◌else◌,
}
use floww_backend.Session.{ok, err, http_exception, scalar_one_or_none}
use floww_backend.Table.{consistent}
use floww_backend.Kv.Data.{
  Provider, KeyValueTable, Permission, Item, Db, WorkflowContext, is_provider, is_table,
  is_permission, is_item, clash_item,
}
use floww_backend.Kv.Names.{
  codes, validate_table_name, validate_key, validate_value_size, pattern_match, name_char,
  match_rest,
}
use floww_backend.Kv.Store.{
  get_or_create_kv_provider, find_table, find_permission, may_read, may_write, get_or_create_table,
  write_item,
}
use floww_backend.Kv.Routes.{get_value, set_value, upsert_item}
use floww_backend.Kv.Syntax.{IsName, validate_table_name_iff, validate_key_iff}
use floww_backend.Kv.Writes.{provider_rows, table_rows, permission_rows}
use floww_backend.Kv.Data.{clash_item}
use floww_backend.Kv.Store.{get_table_with_permission, find_item, delete_item}
use floww_backend.Kv.Routes.{delete_value}
use floww_backend.Table.{remove}
use floww_backend.Kv.Deletion.{delete_then_get}
use floww_backend.Kv.Readback.{set_then_get, set_changes_one}

abbrev caller : WorkflowContext
caller = record { workflow_id = 3; namespace_id = 4 }

abbrev provider_row : Provider
provider_row = record { id = 1; namespace_id = 4; type = "kvstore"; alias = "default" }

abbrev table_row : KeyValueTable
table_row = record { id = 2; provider_id = 1; name = "jobs" }

abbrev permission_row : Permission
permission_row = record {
  table_id = 2;
  workflow_id = 3;
  can_read = true;
  can_write = true;
  created_at = 5;
}

abbrev old_item : Item
old_item = record { table_id = 2; key = "last"; value = "1"; created_at = 6; updated_at = 6 }

abbrev tables : Db
tables = record {
  next_id = 9;
  providers = provider_row ∷ [];
  tables = table_row ∷ [];
  permissions = permission_row ∷ [];
  items = old_item ∷ [];
  workflows = record { id = 3; namespace_id = 4 } ∷ [];
}

abbrev new_item : Item
new_item = record old_item { value = "2" }

abbrev after : Db
after = record tables { items = new_item ∷ [] }

items-consistent : consistent clash_item tables.items ≡ true
unfolding consistent
items-consistent = refl

-- An overwrite leaves the time of the last update as it was.
overwritten : set_value caller 8 "default" "jobs" "last" "2" tables ≡ ok (some new_item, after)
unfolding set_value upsert_item validate_value_size validate_table_name validate_key pattern_match
    name_char match_rest get_or_create_kv_provider get_or_create_table find_table find_permission
    write_item is_provider is_table is_permission is_item scalar_one_or_none
overwritten = refl

set_then_get_example :
    (i : Item) × (p : Provider) × (t : KeyValueTable) × (o : Option Permission) × (some new_item
      ≡ some i)
    × (i.value ≡ "2")
    × (provider_rows 4 "default" after ≡ ok (some p))
    × (table_rows p.id "jobs" after ≡ ok (some t))
    × (permission_rows t.id 3 after ≡ ok o)
    × (get_value caller "default" "jobs" "last" after ≡ (
        if may_read o
        then ok (i, after)
        else err (http_exception 403 "No read permission for table")))
set_then_get_example =
    set_then_get caller 8 "default" "jobs" "last" "2" tables after (some new_item) items-consistent
      overwritten

set_changes_one_example :
    (p : Provider) × (t : KeyValueTable) × (o : Option Permission) × (provider_rows 4 "default"
        after
      ≡ ok (some p))
    × (table_rows p.id "jobs" after ≡ ok (some t))
    × (permission_rows t.id 3 after ≡ ok o)
    × (may_write o ≡ true)
    × ((table_id : ℕ) (other : String)
        → find (is_item table_id other) after.items ≡ (
            if t.id == table_id && str_eq "last" other
            then some new_item
            else find (is_item table_id other) tables.items))
set_changes_one_example =
    set_changes_one caller 8 "default" "jobs" "last" "2" tables after (some new_item) overwritten

validate_table_name_iff_example :
    (validate_table_name "jobs\n" tables ≡ ok (tt, tables))
    ↔ (IsName (codes "jobs\n") × (length (codes "jobs\n") ≤ 255))
validate_table_name_iff_example = validate_table_name_iff "jobs\n" tables

validate_key_iff_example :
    (validate_key "a b" tables ≡ ok (tt, tables))
    ↔ (IsName (codes "a b") × (length (codes "a b") ≤ 255))
validate_key_iff_example = validate_key_iff "a b" tables

abbrev emptied : Db
emptied = record tables { items = [] }

deleted : delete_value caller "default" "jobs" "last" tables ≡ ok (tt, emptied)
unfolding delete_value delete_item validate_table_name validate_key pattern_match name_char
    match_rest get_or_create_kv_provider get_table_with_permission find_table find_permission
    find_item is_provider is_table is_permission is_item scalar_one_or_none clash_item remove
deleted = refl

delete_then_get_example :
    (p : Provider) × (t : KeyValueTable) × (o : Option Permission) × (provider_rows 4 "default"
        emptied
      ≡ ok (some p))
    × (table_rows p.id "jobs" emptied ≡ ok (some t))
    × (permission_rows t.id 3 emptied ≡ ok o)
    × (may_write o ≡ true)
    × (get_value caller "default" "jobs" "last" emptied
        ≡ err (
            if may_read o
            then http_exception 404 "Key not found in table"
            else http_exception 403 "No read permission for table"))
    × ((table_id : ℕ) (other : String)
        → find (is_item table_id other) emptied.items ≡ (
            if t.id == table_id && str_eq "last" other
            then none
            else find (is_item table_id other) tables.items))
delete_then_get_example =
    delete_then_get caller "default" "jobs" "last" tables emptied items-consistent deleted
