-- ===== src/Crud/Helper.antt =====
-- `CrudHelper` of app/services/crud_helpers.py over the rows of one table. A helper is given by
-- the filter of its query, the column `id` and what it says of a missing row; a read model is the
-- row itself.
use floww_backend.Prelude.{
  ℕ, Bool, not, ◌&&◌, none, some, List, [], ◌∷◌, ◌++◌, String, ◌==◌, select, map, if◌then◌else◌,
}
use floww_backend.Session.{
  Session, ok, err, pure, raise, lift, http_exception, integrity_error, scalar_one_or_none, ◌>>=◌,
}
use floww_backend.Table.{consistent}

pub record CrudHelper (Row : Type 0) : Type 0 where
  pub filter : Row → Bool
  pub id_of : Row → ℕ
  pub not_found : String

module _ {Row : Type 0} (helper : CrudHelper Row) where
  abbrev pub with_key : ℕ → Row → Bool
  with_key id row = helper.id_of row == id

  -- `query_filters` is what the keyword arguments that are not None ask for.
  unfoldable pub list_response : (Row → Bool) → Session (List Row) (List Row)
  list_response query_filters rows =
      ok (select (λ row. helper.filter row && query_filters row) rows, rows)

  unfoldable pub get_response : ℕ → Session (List Row) Row
  get_response id = do
    found ← λ rows.
        lift (scalar_one_or_none (select (λ row. helper.filter row && with_key id row) rows)) rows
    elim found [ none ↦ raise (http_exception 404 helper.not_found) | some row ↦ pure row ]

  -- `update(model).where(model.id == id).values(...).returning(model)`
  unfoldable pub update_response : ℕ → (Row → Row) → Session (List Row) Row
  update_response id values = do
    found ← λ rows.
        lift (scalar_one_or_none (select (with_key id) rows))
          (map (λ row. if with_key id row then values row else row) rows)
    elim found [ none ↦ raise (http_exception 404 helper.not_found) | some row ↦ pure (values row) ]

  unfoldable pub delete_response : ℕ → Session (List Row) ℕ
  unfolding get_response
  delete_response id = do
    row ← get_response id
    λ rows. ok (id, select (λ r. not (with_key id r)) rows)

  -- The flush of a new row, under the uniqueness constraints of its table.
  unfoldable pub create_response : (Row → Row → Bool) → Row → Session (List Row) Row
  create_response clash row rows =
      let added = rows ++ row ∷ [] in
      if consistent clash added then ok (row, added) else err integrity_error
