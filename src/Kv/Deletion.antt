-- ===== src/Kv/Deletion.antt =====
-- `delete_value` of app/routes/kv_store.py, and the reads that follow it.
use floww_backend.Prelude.{
  ℕ, ◌≡◌, inl, inr, refl, sym, ap, ◌∙◌, Bool, Bool-cases, true, false, ◌&&◌, Option, none, some,
  String, ◌==◌, str_eq, find, find_sound, select, arith, if◌then◌else◌,
}
use floww_backend.Session.{
  Session, Result, ok, err, http_exception, scalar_one_or_none, >>=-eq-ok, ◌>>=◌,
}
use floww_backend.Table.{consistent, remove}
use floww_backend.Table.Laws.{scalar_one_or_none-select, consistent-remove}
use floww_backend.Kv.Data.{
  Provider, KeyValueTable, Permission, Item, Db, WorkflowContext, is_permission, is_provider,
  is_table, is_item, clash_item,
}
use floww_backend.Kv.Names.{validate_table_name, validate_key}
use floww_backend.Kv.Store.{
  get_or_create_kv_provider, find_table, find_permission, find_item, may_read, may_write,
  get_table_with_permission, delete_item,
}
use floww_backend.Kv.Routes.{get_value, delete_value}
use floww_backend.Kv.Items.{is_item-PicksUnique, find-remove_item, find-remove_other}
use floww_backend.Kv.Readback.{table-found, same_key}
use floww_backend.Kv.Writes.{
  provider_rows, table_rows, permission_rows, provider-ok, provider-found, table_name-ok, key-ok,
}

permitted-ok :
    (provider_id w : ℕ) (name : String) (t : KeyValueTable) (o : Option Permission) (db db' : Db)
    → get_table_with_permission provider_id name w false true db ≡ ok ((t, o), db')
    → (db' ≡ db)
      × (table_rows provider_id name db ≡ ok (some t))
      × (permission_rows t.id w db ≡ ok o)
      × (may_write o ≡ true)
unfolding get_table_with_permission find_table find_permission
permitted-ok provider_id w name t o db db' h = ground arith

-- What a returned deletion shows of the states before and after it.
pub record Deleted (ctx : WorkflowContext) (provider table key : String) (db db' : Db)
    : Type 0 where
  pub kv_provider : Provider
  pub kv_table : KeyValueTable
  pub permission : Option Permission
  pub item : Item
  pub provider_there : provider_rows ctx.namespace_id provider db' ≡ ok (some kv_provider)
  pub table_there : table_rows kv_provider.id table db' ≡ ok (some kv_table)
  pub permission_there : permission_rows kv_table.id ctx.workflow_id db' ≡ ok permission
  pub permitted : may_write permission ≡ true
  pub item_there : scalar_one_or_none (select (is_item kv_table.id key) db.items) ≡ ok (some item)
  pub rows : db'.items ≡ remove clash_item item db.items
  pub table_name : (d : Db) → validate_table_name table d ≡ ok (tt, d)
  pub key_name : (d : Db) → validate_key key d ≡ ok (tt, d)

-- The last step of a deletion: the item that is there is removed.
delete_step-ok :
    (found : Option Item) (d db' : Db)
    → (elim found as (λ x. Session Db Unit) [
      | none ↦ (λ e. err (http_exception 404 "Key not found in table"))
      | some i ↦ delete_item i
    ])
        d
      ≡ ok (tt, db')
    → (i : Item) × (found ≡ some i) × (db' ≡ record d { items = remove clash_item i d.items })
unfolding delete_item
delete_step-ok none d db' h = absurd (ground arith)
delete_step-ok (some i) d db' h = (i, refl, ground arith)

item-ok :
    (table_id : ℕ) (key : String) (o : Option Item) (db db' : Db)
    → find_item table_id key db ≡ ok (o, db')
    → (db' ≡ db) × (scalar_one_or_none (select (is_item table_id key) db.items) ≡ ok o)
unfolding find_item
item-ok table_id key o db db' h = ground arith

assemble :
    (ctx : WorkflowContext) (provider table key : String) (p : Provider) (t : KeyValueTable)
    (o : Option Permission) (found : Option Item) (db d1 d2 d3 d4 d5 db' : Db)
    → validate_table_name table db ≡ ok (tt, d1)
    → validate_key key d1 ≡ ok (tt, d2)
    → get_or_create_kv_provider ctx.namespace_id provider d2 ≡ ok (p, d3)
    → get_table_with_permission p.id table ctx.workflow_id false true d3 ≡ ok ((t, o), d4)
    → find_item t.id key d4 ≡ ok (found, d5)
    → (elim found as (λ x. Session Db Unit) [
      | none ↦ (λ e. err (http_exception 404 "Key not found in table"))
      | some i ↦ delete_item i
    ])
        d5
      ≡ ok (tt, db')
    → Deleted ctx provider table key db db'
assemble ctx provider table key p t o found db d1 d2 d3 d4 d5 db' h1 h2 h3 h4 h5 h6 =
    let e1 = (table_name-ok table db d1 db h1).0 in
    let e2 = (key-ok key d1 d2 d1 h2).0 in
    let (there, kept) = provider-ok ctx.namespace_id provider p d2 d3 h3 in
    let (e4, there', found', allowed) = permitted-ok p.id ctx.workflow_id table t o d3 d4 h4 in
    let (e5, item_found) = item-ok t.id key found d4 d5 h5 in
    let (i, is, last) = delete_step-ok found d5 db' h6 in
    let back : d5 ≡ d3 = e5 ∙ e4 in
    let items_kept : d5.items ≡ db.items =
      ap (λ (d : Db). d.items) back ∙ kept ∙ ap (λ (d : Db). d.items) (e2 ∙ e1) in
    record {
      kv_provider = p;
      kv_table = t;
      permission = o;
      item = i;
      provider_there =
          ap (λ l. scalar_one_or_none (select (is_provider ctx.namespace_id provider) l))
            (ap (λ (d : Db). d.providers) last ∙ ap (λ (d : Db). d.providers) back)
          ∙ there;
      table_there =
          ap (λ l. scalar_one_or_none (select (is_table p.id table) l))
            (ap (λ (d : Db). d.tables) last ∙ ap (λ (d : Db). d.tables) back)
          ∙ there';
      permission_there =
          ap (λ l. scalar_one_or_none (select (is_permission t.id ctx.workflow_id) l))
            (ap (λ (d : Db). d.permissions) last ∙ ap (λ (d : Db). d.permissions) back)
          ∙ found';
      permitted = allowed;
      item_there =
          ap (λ l. scalar_one_or_none (select (is_item t.id key) l))
            (sym (sym (ap (λ (d : Db). d.items) e5) ∙ items_kept))
          ∙ item_found
          ∙ ap ok is;
      rows = ap (λ (d : Db). d.items) last ∙ ap (remove clash_item i) items_kept;
      table_name = λ d. (table_name-ok table db d1 d h1).1;
      key_name = λ d. (key-ok key d1 d2 d h2).1;
    }

delete_value-Deleted :
    (ctx : WorkflowContext) (provider table key : String) (db db' : Db)
    → delete_value ctx provider table key db ≡ ok (tt, db')
    → Deleted ctx provider table key db db'
unfolding delete_value
delete_value-Deleted ctx provider table key db db' h =
    let (_, d1, h1, k1) = >>=-eq-ok (validate_table_name table) _ db h in
    let (_, d2, h2, k2) = >>=-eq-ok (validate_key key) _ d1 k1 in
    let (p, d3, h3, k3) = >>=-eq-ok (get_or_create_kv_provider ctx.namespace_id provider) _ d2 k2 in
    let (f, d4, h4, k4) =
      >>=-eq-ok (get_table_with_permission p.id table ctx.workflow_id false true) _ d3 k3 in
    let (o, d5, h5, k5) = >>=-eq-ok (find_item f.0.id key) _ d4 k4 in
    assemble ctx provider table key p f.0 f.1 o db d1 d2 d3 d4 d5 db' h1 h2 h3 h4 h5 k5

found-ok : (a b : Option Item) → ◌≡◌ {A = Result (Option Item)} (ok a) (ok b) → a ≡ b
found-ok a b h = ground arith

-- The read that follows a returned deletion.
gone_run :
    (ctx : WorkflowContext) (provider table key : String) (db db' : Db)
    → (w : Deleted ctx provider table key db db') → consistent clash_item db'.items ≡ true
    → find (is_item w.kv_table.id key) db'.items ≡ none
    → get_value ctx provider table key db'
      ≡ err (
          if may_read w.permission
          then http_exception 404 "Key not found in table"
          else http_exception 403 "No read permission for table")
unfolding get_value find_item
gone_run ctx provider table key db db' w kept gone =
    rw (w.table_name db', ◌>>=◌)
      (rw (w.key_name db', ◌>>=◌)
        (rw (provider-found ctx.namespace_id provider w.kv_provider db' w.provider_there, ◌>>=◌)
          (rw
            (
              table-found w.kv_provider.id ctx.workflow_id table w.kv_table w.permission db'
                  w.table_there w.permission_there,
              ◌>>=◌,
            )
            (ground (
              arith,
              gone,
              scalar_one_or_none-select clash_item (is_item w.kv_table.id key)
                  (is_item-PicksUnique w.kv_table.id key) db'.items kept,
            )))))

-- On a table of items with unique keys, a deletion that returned was permitted by the permission
-- that the store holds for the workflow on the table; a read of the same key by the same
-- workflow then is answered with a 404, or with a 403 if that permission does not allow reading;
-- and a query of any other item by table and key gives what it gave before.
pub delete_then_get :
    (ctx : WorkflowContext) (provider table key : String) (db db' : Db)
    → consistent clash_item db.items ≡ true
    → delete_value ctx provider table key db ≡ ok (tt, db')
    → (p : Provider) × (t : KeyValueTable) × (o : Option Permission) × (provider_rows
          ctx.namespace_id provider db'
        ≡ ok (some p))
      × (table_rows p.id table db' ≡ ok (some t))
      × (permission_rows t.id ctx.workflow_id db' ≡ ok o)
      × (may_write o ≡ true)
      × (get_value ctx provider table key db'
          ≡ err (
              if may_read o
              then http_exception 404 "Key not found in table"
              else http_exception 403 "No read permission for table"))
      × ((table_id : ℕ) (other : String)
          → find (is_item table_id other) db'.items ≡ (
              if t.id == table_id && str_eq key other
              then none
              else find (is_item table_id other) db.items))
delete_then_get ctx provider table key db db' valid h = (
  w.kv_provider, w.kv_table, w.permission, w.provider_there, w.table_there, w.permission_there,
  w.permitted, read, items,
)
  where
    w : Deleted ctx provider table key db db'
    w = delete_value-Deleted ctx provider table key db db' h

    query : Item → Bool
    query = is_item w.kv_table.id key

    there : find query db.items ≡ some w.item
    there = found-ok (find query db.items) (some w.item) (
        sym (
          scalar_one_or_none-select clash_item query (is_item-PicksUnique w.kv_table.id key)
            db.items valid)
        ∙ w.item_there)

    its : query w.item ≡ true
    its = find_sound query db.items w.item there

    gone : find query db'.items ≡ none
    gone = ap (find query) w.rows ∙ find-remove_item w.kv_table.id key w.item db.items its

    kept : consistent clash_item db'.items ≡ true
    kept =
        ap (consistent clash_item) w.rows
        ∙ consistent-remove clash_item clash_item w.item db.items valid

    read :
        get_value ctx provider table key db'
        ≡ err (
            if may_read w.permission
            then http_exception 404 "Key not found in table"
            else http_exception 403 "No read permission for table")
    read = gone_run ctx provider table key db db' w kept gone

    items :
        (table_id : ℕ) (other : String)
        → find (is_item table_id other) db'.items ≡ (
            if w.kv_table.id == table_id && str_eq key other
            then none
            else find (is_item table_id other) db.items)
    items table_id other = elim (Bool-cases (w.kv_table.id == table_id && str_eq key other)) [
      | inl same ↦ rw same (
          ap (λ (k : ℕ × String). find (is_item k.0 k.1) db'.items)
            (sym (same_key w.kv_table.id table_id key other same))
          ∙ gone)
      | inr apart ↦ rw apart (
          ap (find (is_item table_id other)) w.rows
          ∙ find-remove_other w.kv_table.id key w.item db.items table_id other its apart)
    ]
