-- ===== src/Crud/Hidden.antt =====
-- Rows that the query of a `CrudHelper` hides.
use floww_backend.Prelude.{
  ℕ, ◌≡◌, refl, inl, inr, Bool, Bool-cases, true, false, ◌&&◌, some, List, [], ◌∷◌, ◌==◌, select,
  map, find, if◌then◌else◌, arith,
}
use floww_backend.Session.{◌>>=◌, ok, err, http_exception, scalar_one_or_none}
use floww_backend.Table.{consistent, clear}
use floww_backend.Table.Laws.{PicksUnique, scalar_one_or_none-select}
use floww_backend.Crud.Helper.{CrudHelper, with_key, get_response, update_response, delete_response}

module _ {Row : Type 0} (helper : CrudHelper Row) where
  abbrev pub same_key : Row → Row → Bool
  same_key a b = helper.id_of a == helper.id_of b

  with_key-PicksUnique : (id : ℕ) → PicksUnique same_key (with_key helper id)
  with_key-PicksUnique id x y h k = ground arith

  none_pass :
      (id : ℕ) (row : Row) (rows : List Row)
      → consistent same_key rows ≡ true
      → find (with_key helper id) rows ≡ some row
      → helper.filter row ≡ false
      → select (λ r. helper.filter r && with_key helper id r) rows ≡ []
  unfolding consistent
  none_pass id row [] c f h = refl
  none_pass id row (x ∷ rows) c f h = elim (Bool-cases (with_key helper id x)) [
    | inl k ↦ ground (arith, none_other x rows)
    | inr k ↦ ground (arith, none_pass id row rows)
  ]
    where
      none_other :
          (x : Row) (rows : List Row)
          → with_key helper id x ≡ true
          → clear same_key x rows ≡ true
          → select (λ r. helper.filter r && with_key helper id r) rows ≡ []
      none_other x [] k c = refl
      none_other x (y ∷ rows) k c = ground (arith, none_other x rows k)

  -- On rows with unique identifiers, a row that the filter of the query hides is answered with a
  -- 404 when read or deleted, but an update of it succeeds and writes its new values.
  pub hidden_row :
      (id : ℕ) (row : Row) (rows : List Row) (values : Row → Row)
      → consistent same_key rows ≡ true
      → find (with_key helper id) rows ≡ some row
      → helper.filter row ≡ false
      → (get_response helper id rows ≡ err (http_exception 404 helper.not_found))
        × (delete_response helper id rows ≡ err (http_exception 404 helper.not_found))
        × (update_response helper id values rows
            ≡ ok (values row, map (λ r. if with_key helper id r then values r else r) rows))
  unfolding get_response delete_response update_response scalar_one_or_none
  hidden_row id row rows values c f h =
      let empty = none_pass id row rows c f h in
      (
        rw (get_response, ◌>>=◌, empty, scalar_one_or_none) refl,
        rw (delete_response, ◌>>=◌, get_response, ◌>>=◌, empty, scalar_one_or_none) refl,
        ground (
          arith,
          scalar_one_or_none-select same_key (with_key helper id) (with_key-PicksUnique id) rows c,
        ),
      )
