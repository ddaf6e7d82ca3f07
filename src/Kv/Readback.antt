-- ===== src/Kv/Readback.antt =====
-- `set_value` of app/routes/kv_store.py, and the reads that follow it.
use floww_backend.Prelude.{
  ℕ, ◌≡◌, inl, inr, sym, ap, ◌∙◌, Bool-cases, true, false, ◌&&◌, Option, some, String, ◌==◌, str_eq,
  find, arith, if◌then◌else◌,
}
use text.Mathlib.TextEquality.{eq_iff}
use floww_backend.Session.{ok, err, http_exception, ◌>>=◌}
use floww_backend.Table.{consistent}
use floww_backend.Table.Laws.{scalar_one_or_none-select}
use floww_backend.Kv.Data.{
  Provider, KeyValueTable, Permission, Item, Db, WorkflowContext, is_item, clash_item,
}
use floww_backend.Kv.Store.{
  find_table, find_permission, find_item, may_read, may_write, get_table_with_permission,
}
use floww_backend.Kv.Routes.{get_value, set_value}
use floww_backend.Kv.Items.{
  write_item-find, write_item-other, write_item-consistent, is_item-PicksUnique,
}
use floww_backend.Kv.Writes.{
  Written, set_value-Written, provider_rows, table_rows, permission_rows, provider-found,
}

pub same_key :
    (a b : ℕ) (k l : String) → (a == b && str_eq k l) ≡ true → ◌≡◌ {A = ℕ × String} (a, k) (b, l)
same_key a b k l h = ground (arith, eq_iff k l)

pub table-found :
    (provider_id w : ℕ) (name : String) (t : KeyValueTable) (o : Option Permission) (d : Db)
    → table_rows provider_id name d ≡ ok (some t)
    → permission_rows t.id w d ≡ ok o
    → get_table_with_permission provider_id name w true false d ≡ (
        if may_read o
        then ok ((t, o), d)
        else err (http_exception 403 "No read permission for table"))
unfolding get_table_with_permission find_table find_permission
table-found provider_id w name t o d h k = ground arith

-- The read that follows a returned write.
read_run :
    (ctx : WorkflowContext) (now : ℕ) (provider table key value : String) (db db' : Db)
    (r : Option Item) (i : Item)
    → consistent clash_item db'.items ≡ true
    → (w : Written ctx now provider table key value db db' r)
    → find (is_item w.kv_table.id key) db'.items ≡ some i
    → get_value ctx provider table key db' ≡ (
        if may_read w.permission
        then ok (i, db')
        else err (http_exception 403 "No read permission for table"))
unfolding get_value find_item
read_run ctx now provider table key value db db' r i valid w f =
    rw (w.table_name db', ◌>>=◌)
      (rw (w.key_name db', ◌>>=◌)
        (rw (provider-found ctx.namespace_id provider w.kv_provider db' w.provider_there, ◌>>=◌)
          (rw
            (
              table-found w.kv_provider.id ctx.workflow_id table w.kv_table w.permission db'
                  w.table_there w.permission_there,
              ◌>>=◌,
            )
            (ground (
              arith,
              scalar_one_or_none-select clash_item (is_item w.kv_table.id key)
                  (is_item-PicksUnique w.kv_table.id key) db'.items valid,
            )))))

-- On a table of items with unique keys, a write that returned gives back the item that it
-- stored, with the value as sent; a read of the same key by the same workflow then returns that
-- item and writes nothing if the permission of the workflow on the table allows reading, and is
-- answered with a 403 otherwise.
pub set_then_get :
    (ctx : WorkflowContext) (now : ℕ) (provider table key value : String) (db db' : Db)
    (r : Option Item)
    → consistent clash_item db.items ≡ true
    → set_value ctx now provider table key value db ≡ ok (r, db')
    → (i : Item) × (p : Provider) × (t : KeyValueTable) × (o : Option Permission) × (r ≡ some i)
      × (i.value ≡ value)
      × (provider_rows ctx.namespace_id provider db' ≡ ok (some p))
      × (table_rows p.id table db' ≡ ok (some t))
      × (permission_rows t.id ctx.workflow_id db' ≡ ok o)
      × (get_value ctx provider table key db' ≡ (
          if may_read o
          then ok (i, db')
          else err (http_exception 403 "No read permission for table")))
set_then_get ctx now provider table key value db db' r valid h =
    let w = set_value-Written ctx now provider table key value db db' r h in
    let (i, f, v) = write_item-find now w.kv_table.id key value db.items in
    let stored = ap (find (is_item w.kv_table.id key)) w.rows ∙ f in
    let kept =
      ap (consistent clash_item) w.rows
      ∙ write_item-consistent now w.kv_table.id key value db.items valid in
    (
      i,
      w.kv_provider,
      w.kv_table,
      w.permission,
      w.result ∙ stored,
      v,
      w.provider_there,
      w.table_there,
      w.permission_there,
      read_run ctx now provider table key value db db' r i kept w stored,
    )

-- A write that returned was permitted by the permission that the store holds for the writing
-- workflow on the table, and it changes one item alone: a query of any item by table and key
-- gives what the write returned, for that table and key, and for any other what it gave before.
pub set_changes_one :
    (ctx : WorkflowContext) (now : ℕ) (provider table key value : String) (db db' : Db)
    (r : Option Item)
    → set_value ctx now provider table key value db ≡ ok (r, db')
    → (p : Provider) × (t : KeyValueTable) × (o : Option Permission) × (provider_rows
          ctx.namespace_id provider db'
        ≡ ok (some p))
      × (table_rows p.id table db' ≡ ok (some t))
      × (permission_rows t.id ctx.workflow_id db' ≡ ok o)
      × (may_write o ≡ true)
      × ((table_id : ℕ) (other : String)
          → find (is_item table_id other) db'.items ≡ (
              if t.id == table_id && str_eq key other
              then r
              else find (is_item table_id other) db.items))
set_changes_one ctx now provider table key value db db' r h = (
  w.kv_provider, w.kv_table, w.permission, w.provider_there, w.table_there, w.permission_there,
  w.permitted, items,
)
  where
    w : Written ctx now provider table key value db db' r
    w = set_value-Written ctx now provider table key value db db' r h

    items :
        (table_id : ℕ) (other : String)
        → find (is_item table_id other) db'.items ≡ (
            if w.kv_table.id == table_id && str_eq key other
            then r
            else find (is_item table_id other) db.items)
    items table_id other = elim (Bool-cases (w.kv_table.id == table_id && str_eq key other)) [
      | inl same ↦ rw same (
          ap (λ (k : ℕ × String). find (is_item k.0 k.1) db'.items)
            (sym (same_key w.kv_table.id table_id key other same))
          ∙ sym w.result)
      | inr apart ↦ rw apart (
          ap (find (is_item table_id other)) w.rows
          ∙ write_item-other now w.kv_table.id key value db.items table_id other apart)
    ]
