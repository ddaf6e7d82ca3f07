-- ===== src/Kv/Items.antt =====
-- The rows of `kv_items` under the upsert of app/routes/kv_store.py.
use floww_backend.Prelude.{
  none, ℕ, ◌≡◌, inl, inr, refl, Bool-cases, true, false, ◌&&◌, some, List, [], ◌∷◌, String, ◌==◌,
  str_eq, same_text_self, find, arith,
}
use text.Mathlib.TextEquality.{eq_iff}
use floww_backend.Table.{remove, consistent, clear}
use floww_backend.Table.Laws.{PicksUnique}
use floww_backend.Kv.Data.{Item, is_item, clash_item}
use floww_backend.Kv.Store.{write_item}

-- The item that a write leaves under its key.
pub write_item-find :
    (now table_id : ℕ) (key value : String) (items : List Item)
    → (i : Item) × (find (is_item table_id key) (write_item now table_id key value items) ≡ some i)
      × (i.value ≡ value)
unfolding write_item is_item
write_item-find now table_id key value [] = (
  record { table_id = table_id; key = key; value = value; created_at = now; updated_at = now },
  ground (arith, same_text_self key),
  refl,
)
write_item-find now table_id key value (x ∷ items) = elim (Bool-cases (is_item table_id key x)) [
  | inl e ↦ (record x { value = value }, ground arith, refl)
  | inr e ↦ let (i, f, v) = write_item-find now table_id key value items in (i, ground arith, v)
]

-- Items under other keys are as they were.
pub write_item-other :
    (now table_id : ℕ) (key value : String) (items : List Item) (table_id' : ℕ) (key' : String)
    → (table_id == table_id' && str_eq key key') ≡ false
    → find (is_item table_id' key') (write_item now table_id key value items)
      ≡ find (is_item table_id' key') items
unfolding write_item is_item
write_item-other now table_id key value [] table_id' key' h = ground arith
write_item-other now table_id key value (x ∷ items) table_id' key' h = ground (
  arith,
  write_item-other now table_id key value items table_id' key' h,
  eq_iff x.key key,
  eq_iff x.key key',
  eq_iff key key',
)

clear_absent :
    (i : Item) (now table_id : ℕ) (key value : String) (items : List Item)
    → clear clash_item i items ≡ true
    → is_item table_id key i ≡ false
    → clear clash_item i (write_item now table_id key value items) ≡ true
unfolding write_item is_item clash_item
clear_absent i now table_id key value [] c h = ground arith
clear_absent i now table_id key value (x ∷ items) c h =
    ground (arith, clear_absent i now table_id key value items)

clear_value :
    (x : Item) (value : String) (items : List Item)
    → clear clash_item (record x { value = value }) items ≡ clear clash_item x items
unfolding clash_item
clear_value x value [] = refl
clear_value x value (y ∷ items) = ground (arith, clear_value x value items)

-- A write keeps the primary key of the items.
pub write_item-consistent :
    (now table_id : ℕ) (key value : String) (items : List Item)
    → consistent clash_item items ≡ true
    → consistent clash_item (write_item now table_id key value items) ≡ true
unfolding write_item consistent
write_item-consistent now table_id key value [] c = refl
write_item-consistent now table_id key value (x ∷ items) c = ground (
  arith,
  write_item-consistent now table_id key value items,
  clear_value x value items,
  clear_absent x now table_id key value items,
)

pub is_item-PicksUnique :
    (table_id : ℕ) (key : String) → PicksUnique clash_item (is_item table_id key)
unfolding is_item clash_item
is_item-PicksUnique table_id key x y h k =
    ground (arith, eq_iff x.key key, eq_iff y.key key, eq_iff x.key y.key)

-- After the deletion of the item of a key there is none.
pub find-remove_item :
    (table_id : ℕ) (key : String) (i : Item) (items : List Item)
    → is_item table_id key i ≡ true
    → find (is_item table_id key) (remove clash_item i items) ≡ none
unfolding remove is_item clash_item
find-remove_item table_id key i [] h = refl
find-remove_item table_id key i (x ∷ items) h = ground (
  arith,
  find-remove_item table_id key i items h,
  eq_iff i.key key,
  eq_iff x.key key,
  eq_iff i.key x.key,
)

-- The deletion of an item leaves the items of other keys.
pub find-remove_other :
    (table_id : ℕ) (key : String) (i : Item) (items : List Item) (table_id' : ℕ) (key' : String)
    → is_item table_id key i ≡ true
    → (table_id == table_id' && str_eq key key') ≡ false
    → find (is_item table_id' key') (remove clash_item i items)
      ≡ find (is_item table_id' key') items
unfolding remove is_item clash_item
find-remove_other table_id key i [] table_id' key' h a = refl
find-remove_other table_id key i (x ∷ items) table_id' key' h a = ground (
  arith,
  find-remove_other table_id key i items table_id' key' h a,
  eq_iff i.key key,
  eq_iff x.key key',
  eq_iff i.key x.key,
  eq_iff key key',
)
