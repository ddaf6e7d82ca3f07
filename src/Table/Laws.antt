-- ===== src/Table/Laws.antt =====
-- What uniqueness constraints give: a query on a unique column has one row at most, and updates,
-- inserts and deletes keep the constraints.
use floww_backend.Prelude.{
  ◌≡◌, refl, inl, inr, Bool, true, false, not, ◌&&◌, some, List, [], ◌∷◌, ◌++◌, all, any, find,
  select, if◌then◌else◌, arith, Bool-cases, is_some,
}
use floww_backend.Session.{ok, scalar_one_or_none}
use floww_backend.Table.{clear, consistent, put, remove}

module _ {Row : Type 0} (clash : Row → Row → Bool) (p : Row → Bool) where
  -- The test picks rows by a unique column: two rows that pass it clash.
  abbrev pub PicksUnique : Type 0
  PicksUnique = (x y : Row) → p x ≡ true → p y ≡ true → clash x y ≡ true

  module _ (unique : PicksUnique) where
    select-clear :
        (r : Row) (rows : List Row) → p r ≡ true → clear clash r rows ≡ true → select p rows ≡ []
    select-clear r [] h c = refl
    select-clear r (x ∷ rows) h c = ground (arith, unique r x, select-clear r rows h)

    -- A query on a unique column raises nothing and returns the row that `find` returns.
    pub scalar_one_or_none-select :
        (rows : List Row)
        → consistent clash rows ≡ true
        → scalar_one_or_none (select p rows) ≡ ok (find p rows)
    unfolding scalar_one_or_none consistent
    scalar_one_or_none-select [] c = refl
    scalar_one_or_none-select (x ∷ rows) c = elim (Bool-cases (p x)) [
      | inl h ↦ ground (arith, select-clear x rows h)
      | inr h ↦ ground (arith, scalar_one_or_none-select rows)
    ]

module _ {Row : Type 0} (clash : Row → Row → Bool) where
  pub clear-append :
      (r : Row) (xs ys : List Row)
      → clear clash r (xs ++ ys) ≡ (clear clash r xs && clear clash r ys)
  clear-append r [] ys = refl
  clear-append r (x ∷ xs) ys = ground (arith, clear-append r xs ys)

  module _ (clash_comm : (x y : Row) → clash x y ≡ clash y x) where
    -- An insert is accepted exactly when the new row clashes with none that is there.
    pub consistent-insert :
        (r : Row) (rows : List Row)
        → consistent clash rows ≡ true
        → consistent clash (rows ++ r ∷ []) ≡ clear clash r rows
    unfolding consistent
    consistent-insert r [] c = refl
    consistent-insert r (x ∷ rows) c =
        ground (arith, consistent-insert r rows, clear-append x rows (r ∷ []), clash_comm x r)

  module _ (same : Row → Row → Bool) where
    -- Beside every row of another key, the new values clash with nothing.
    abbrev pub fits : Row → List Row → Bool
    fits r rows = all (λ x. if same r x then true else not (clash r x)) rows

    clear-put :
        (x r : Row) (rows : List Row)
        → clear clash x rows ≡ true
        → clash x r ≡ false
        → clear clash x (put same r rows) ≡ true
    unfolding put
    clear-put x r [] c h = refl
    clear-put x r (y ∷ rows) c h = ground (arith, clear-put x r rows)

    module _ (clash_comm : (x y : Row) → clash x y ≡ clash y x)
        (unique : (r x y : Row) → same r x ≡ true → same r y ≡ true → clash x y ≡ true) where
      put-absent :
          (r x : Row) (rows : List Row)
          → same r x ≡ true
          → clear clash x rows ≡ true
          → put same r rows ≡ rows
      unfolding put
      put-absent r x [] h c = refl
      put-absent r x (y ∷ rows) h c = ground (arith, unique r x y h, put-absent r x rows h)

      clear-fits :
          (r x : Row) (rows : List Row)
          → same r x ≡ true
          → clear clash x rows ≡ true
          → fits r rows ≡ true
          → clear clash r rows ≡ true
      clear-fits r x [] h c f = refl
      clear-fits r x (y ∷ rows) h c f = ground (arith, unique r x y h, clear-fits r x rows h)

      -- An update whose values fit keeps the constraints.
      pub consistent-put :
          (r : Row) (rows : List Row)
          → consistent clash rows ≡ true
          → fits r rows ≡ true
          → consistent clash (put same r rows) ≡ true
      unfolding consistent put
      consistent-put r [] c f = refl
      consistent-put r (x ∷ rows) c f = elim (Bool-cases (same r x)) [
        | inl h ↦ ground (arith, put-absent r x rows h, clear-fits r x rows h)
        | inr h ↦ ground (arith, consistent-put r rows, clear-put x r rows, clash_comm x r)
      ]

  clear-remove :
      (same : Row → Row → Bool) (r x : Row) (rows : List Row)
      → clear clash x rows ≡ true
      → clear clash x (remove same r rows) ≡ true
  unfolding remove
  clear-remove same r x [] c = refl
  clear-remove same r x (y ∷ rows) c = ground (arith, clear-remove same r x rows)

  -- A delete keeps the constraints.
  pub consistent-remove :
      (same : Row → Row → Bool) (r : Row) (rows : List Row)
      → consistent clash rows ≡ true
      → consistent clash (remove same r rows) ≡ true
  unfolding consistent remove
  consistent-remove same r [] c = refl
  consistent-remove same r (x ∷ rows) c =
      ground (arith, consistent-remove same r rows, clear-remove same r x rows)

module _ {Row : Type 0} (same : Row → Row → Bool) (p : Row → Bool) where
  -- An update of a row that the query skips, before and after, does not change the query.
  pub find-put_ne :
      (r : Row) (rows : List Row)
      → p r ≡ false
      → ((x : Row) → same r x ≡ true → p x ≡ false)
      → find p (put same r rows) ≡ find p rows
  unfolding put
  find-put_ne r [] h k = refl
  find-put_ne r (x ∷ rows) h k = ground (arith, find-put_ne r rows h k, k x)

  -- A query that only the updated row can pass returns its new values.
  pub find-put_self :
      (r : Row) (rows : List Row)
      → p r ≡ true
      → ((x : Row) → p x ≡ true → same r x ≡ true)
      → any p rows ≡ true
      → find p (put same r rows) ≡ some r
  unfolding put
  find-put_self r [] h k e = ground arith
  find-put_self r (x ∷ rows) h k e = ground (arith, find-put_self r rows h k, k x)

  pub find-remove_ne :
      (r : Row) (rows : List Row)
      → ((x : Row) → same r x ≡ true → p x ≡ false)
      → find p (remove same r rows) ≡ find p rows
  unfolding remove
  find-remove_ne r [] k = refl
  find-remove_ne r (x ∷ rows) k = ground (arith, find-remove_ne r rows k, k x)

module _ {Row : Type 0} (p : Row → Bool) where
  pub find-append :
      (xs ys : List Row)
      → find p (xs ++ ys) ≡ (if is_some (find p xs) then find p xs else find p ys)
  find-append [] ys = refl
  find-append (x ∷ xs) ys = ground (arith, find-append xs ys)
