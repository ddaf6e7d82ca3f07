-- ===== src/Kv/Writes.antt =====
-- What a write to the store of app/routes/kv_store.py leaves behind: its provider, its table, its
-- permission and its item.
use floww_backend.Prelude.{
  ℕ, ◌≡◌, refl, sym, ap, ◌∙◌, true, not, Option, some, String, str_eq, same_text_self, select, find,
  arith, if◌then◌else◌,
}
use floww_backend.Session.{Result, ok, err, http_exception, scalar_one_or_none, >>=-eq-ok}
use floww_backend.Table.Rows.{scalar-append}
use floww_backend.Kv.Data.{
  Provider, KeyValueTable, Permission, Item, Db, WorkflowContext, is_provider, is_table,
  is_permission, is_item,
}
use floww_backend.Kv.Names.{validate_table_name, validate_key, validate_value_size}
use floww_backend.Kv.Store.{
  get_or_create_kv_provider, find_table, find_permission, may_write, create_table,
  get_or_create_table, write_item,
}
use floww_backend.Kv.Routes.{set_value, upsert_item}

pub text_eq_self : (s : String) → str_eq s s ≡ true
text_eq_self s = same_text_self s

-- A provider that was found or made is there afterwards.
abbrev pub provider_rows : ℕ → String → Db → Result (Option Provider)
provider_rows ns alias db = scalar_one_or_none (select (is_provider ns alias) db.providers)

pub provider-ok :
    (ns : ℕ) (alias : String) (p : Provider) (db db' : Db)
    → get_or_create_kv_provider ns alias db ≡ ok (p, db')
    → (provider_rows ns alias db' ≡ ok (some p)) × (db'.items ≡ db.items)
unfolding get_or_create_kv_provider is_provider
provider-ok ns alias p db db' h =
    let q : Provider = record {
      id = db.next_id;
      namespace_id = ns;
      type = "kvstore";
      alias = alias;
    } in
    ground (arith, scalar-append (is_provider ns alias) db.providers q, text_eq_self alias)

pub provider-found :
    (ns : ℕ) (alias : String) (p : Provider) (d : Db)
    → provider_rows ns alias d ≡ ok (some p)
    → get_or_create_kv_provider ns alias d ≡ ok (p, d)
unfolding get_or_create_kv_provider
provider-found ns alias p d h = rw h refl

abbrev pub table_rows : ℕ → String → Db → Result (Option KeyValueTable)
table_rows provider_id name db = scalar_one_or_none (select (is_table provider_id name) db.tables)

table-ok :
    (now provider_id : ℕ) (name : String) (w : ℕ) (t : KeyValueTable) (db db' : Db)
    → get_or_create_table now provider_id name w db ≡ ok (t, db')
    → (table_rows provider_id name db' ≡ ok (some t))
      × (db'.items ≡ db.items)
      × (db'.providers ≡ db.providers)
unfolding get_or_create_table find_table create_table is_table
table-ok now provider_id name w t db db' h =
    let q : KeyValueTable = record { id = db.next_id; provider_id = provider_id; name = name } in
    ground (arith, scalar-append (is_table provider_id name) db.tables q, text_eq_self name)

abbrev pub permission_rows : ℕ → ℕ → Db → Result (Option Permission)
permission_rows table_id w db =
    scalar_one_or_none (select (is_permission table_id w) db.permissions)

permission-ok :
    (table_id w : ℕ) (o : Option Permission) (db db' : Db)
    → find_permission table_id w db ≡ ok (o, db')
    → (permission_rows table_id w db ≡ ok o) × (db' ≡ db)
unfolding find_permission
permission-ok table_id w o db db' h = ground arith

pub table_name-ok :
    (text : String) (db db' d : Db)
    → validate_table_name text db ≡ ok (tt, db')
    → (db' ≡ db) × (validate_table_name text d ≡ ok (tt, d))
unfolding validate_table_name
table_name-ok text db db' d h = ground arith

pub key-ok :
    (text : String) (db db' d : Db)
    → validate_key text db ≡ ok (tt, db')
    → (db' ≡ db) × (validate_key text d ≡ ok (tt, d))
unfolding validate_key
key-ok text db db' d h = ground arith

value_size-ok :
    (text checked : String) (db db' : Db)
    → validate_value_size text db ≡ ok (checked, db')
    → (db' ≡ db) × (checked ≡ text)
unfolding validate_value_size
value_size-ok text checked db db' h = ground arith

-- What a returned write shows of the state that it leaves.
pub record Written (ctx : WorkflowContext) (now : ℕ) (provider table key value : String)
    (db db' : Db) (r : Option Item) : Type 0 where
  pub kv_provider : Provider
  pub kv_table : KeyValueTable
  pub permission : Option Permission
  pub provider_there : provider_rows ctx.namespace_id provider db' ≡ ok (some kv_provider)
  pub table_there : table_rows kv_provider.id table db' ≡ ok (some kv_table)
  pub permission_there : permission_rows kv_table.id ctx.workflow_id db' ≡ ok permission
  pub permitted : may_write permission ≡ true
  pub rows : db'.items ≡ write_item now kv_table.id key value db.items
  pub result : r ≡ find (is_item kv_table.id key) db'.items
  pub table_name : (d : Db) → validate_table_name table d ≡ ok (tt, d)
  pub key_name : (d : Db) → validate_key key d ≡ ok (tt, d)

-- The last step of a write: the permission is checked and the item upserted.
write_step-ok :
    (ctx : WorkflowContext) (now : ℕ) (t : KeyValueTable) (o : Option Permission)
    (key value : String) (d db' : Db) (r : Option Item)
    → (if not (may_write o)
        then err (http_exception 403 "No write permission for table")
        else upsert_item ctx now t.id key value d)
      ≡ ok (r, db')
    → (may_write o ≡ true)
      × (db' ≡ record d { items = write_item now t.id key value d.items })
      × (r ≡ find (is_item t.id key) (write_item now t.id key value d.items))
unfolding upsert_item
write_step-ok ctx now t o key value d db' r h = ground arith

-- The steps of a write, each from the state that the one before it left.
assemble :
    (ctx : WorkflowContext) (now : ℕ) (provider table key value checked : String) (p : Provider)
    (t : KeyValueTable) (o : Option Permission) (r : Option Item) (db d0 d1 d2 d3 d4 d5 db' : Db)
    → validate_value_size value db ≡ ok (checked, d0)
    → validate_table_name table d0 ≡ ok (tt, d1)
    → validate_key key d1 ≡ ok (tt, d2)
    → get_or_create_kv_provider ctx.namespace_id provider d2 ≡ ok (p, d3)
    → get_or_create_table now p.id table ctx.workflow_id d3 ≡ ok (t, d4)
    → find_permission t.id ctx.workflow_id d4 ≡ ok (o, d5)
    → (if not (may_write o)
        then err (http_exception 403 "No write permission for table")
        else upsert_item ctx now t.id key checked d5)
      ≡ ok (r, db')
    → Written ctx now provider table key value db db' r
assemble ctx now provider table key value checked p t o r db d0 d1 d2 d3 d4 d5 db' h0 h1 h2 h3 h4 h5
      h6 =
    let (e0, same) = value_size-ok value checked db d0 h0 in
    let e1 = (table_name-ok table d0 d1 d0 h1).0 in
    let e2 = (key-ok key d1 d2 d1 h2).0 in
    let (there, kept) = provider-ok ctx.namespace_id provider p d2 d3 h3 in
    let (there', kept', providers) = table-ok now p.id table ctx.workflow_id t d3 d4 h4 in
    let (found, e5) = permission-ok t.id ctx.workflow_id o d4 d5 h5 in
    let (allowed, last, res) = write_step-ok ctx now t o key checked d5 db' r h6 in
    let items_kept : d5.items ≡ db.items =
      ap (λ (d : Db). d.items) e5 ∙ kept' ∙ kept ∙ ap (λ (d : Db). d.items) (e2 ∙ e1 ∙ e0) in
    record {
      kv_provider = p;
      kv_table = t;
      permission = o;
      provider_there =
          ap (λ l. scalar_one_or_none (select (is_provider ctx.namespace_id provider) l))
            (ap (λ (d : Db). d.providers) (last ∙ refl)
              ∙ ap (λ (d : Db). d.providers) e5
              ∙ providers)
          ∙ there;
      table_there =
          ap (λ l. scalar_one_or_none (select (is_table p.id table) l))
            (ap (λ (d : Db). d.tables) last ∙ ap (λ (d : Db). d.tables) e5)
          ∙ there';
      permission_there =
          ap (λ l. scalar_one_or_none (select (is_permission t.id ctx.workflow_id) l))
            (ap (λ (d : Db). d.permissions) last ∙ ap (λ (d : Db). d.permissions) e5)
          ∙ found;
      permitted = allowed;
      rows =
          ap (λ (d : Db). d.items) last
          ∙ ap (λ l. write_item now t.id key checked l) items_kept
          ∙ ap (λ v. write_item now t.id key v db.items) same;
      result = res ∙ sym (ap (λ (d : Db). find (is_item t.id key) d.items) last);
      table_name = λ d. (table_name-ok table d0 d1 d h1).1;
      key_name = λ d. (key-ok key d1 d2 d h2).1;
    }

pub set_value-Written :
    (ctx : WorkflowContext) (now : ℕ) (provider table key value : String) (db db' : Db)
    (r : Option Item)
    → set_value ctx now provider table key value db ≡ ok (r, db')
    → Written ctx now provider table key value db db' r
unfolding set_value
set_value-Written ctx now provider table key value db db' r h =
    let (checked, d0, h0, k0) = >>=-eq-ok (validate_value_size value) _ db h in
    let (_, d1, h1, k1) = >>=-eq-ok (validate_table_name table) _ d0 k0 in
    let (_, d2, h2, k2) = >>=-eq-ok (validate_key key) _ d1 k1 in
    let (p, d3, h3, k3) = >>=-eq-ok (get_or_create_kv_provider ctx.namespace_id provider) _ d2 k2 in
    let (t, d4, h4, k4) = >>=-eq-ok (get_or_create_table now p.id table ctx.workflow_id) _ d3 k3 in
    let (o, d5, h5, k5) = >>=-eq-ok (find_permission t.id ctx.workflow_id) _ d4 k4 in
    assemble ctx now provider table key value checked p t o r db d0 d1 d2 d3 d4 d5 db' h0 h1 h2 h3
      h4 h5 (ground arith)
