-- ===== src/Table/Updates.antt =====
-- Updates of a row that is in the table: its new values fit where they take no unique value of
-- another row, and a second update replaces the first.
use floww_backend.Prelude.{
  ◌≡◌, refl, inl, inr, Bool, true, false, some, List, [], ◌∷◌, find, select, arith, Bool-cases,
}
use floww_backend.Table.{clear, consistent, put}
use floww_backend.Table.Laws.{PicksUnique, fits}
use floww_backend.Session.{ok, scalar_one_or_none}

module _ {Row : Type 0} (clash same : Row → Row → Bool) where
  -- What fits in place of one row of a key fits in place of any other row of that key.
  pub fits-put :
      (r s : Row) (rows : List Row)
      → ((x : Row) → same s x ≡ true → same r x ≡ true)
      → same r s ≡ true
      → fits clash same r rows ≡ true
      → fits clash same r (put same s rows) ≡ true
  unfolding put
  fits-put r s [] k h f = refl
  fits-put r s (x ∷ rows) k h f = ground (arith, k x, fits-put r s rows k h)

  fits-clear :
      (r : Row) (rows : List Row) → clear clash r rows ≡ true → fits clash same r rows ≡ true
  fits-clear r [] c = refl
  fits-clear r (x ∷ rows) c = ground (arith, fits-clear r rows)

  -- A row of the table fits in its own place.
  module _ (clash_comm : (x y : Row) → clash x y ≡ clash y x)
      (same_self : (x : Row) → same x x ≡ true) (p : Row → Bool) where
    pub clear-found :
        (x s : Row) (rows : List Row)
        → clear clash x rows ≡ true
        → find p rows ≡ some s
        → clash x s ≡ false
    clear-found x s [] c e = ground arith
    clear-found x s (y ∷ rows) c e = ground (arith, clear-found x s rows)

    pub found-fits :
        (s : Row) (rows : List Row)
        → consistent clash rows ≡ true
        → find p rows ≡ some s
        → fits clash same s rows ≡ true
    unfolding consistent
    found-fits s [] c e = refl
    found-fits s (x ∷ rows) c e = elim (Bool-cases (p x)) [
      | inl h ↦ ground (arith, same_self x, fits-clear x rows)
      | inr h ↦ ground (arith, found-fits s rows, clear-found x s rows, clash_comm x s)
    ]

  -- New values that clash with no more rows than the old ones fit too.
  pub fits_mono :
      (r s : Row) (rows : List Row)
      → ((x : Row) → same s x ≡ true → same r x ≡ true)
      → ((x : Row) → clash s x ≡ false → clash r x ≡ false)
      → fits clash same s rows ≡ true
      → fits clash same r rows ≡ true
  fits_mono r s [] k h f = refl
  fits_mono r s (x ∷ rows) k h f = ground (arith, k x, h x, fits_mono r s rows k h)

module _ {Row : Type 0} (same : Row → Row → Bool) where
  pub put-put :
      (r s : Row) (rows : List Row)
      → ((x : Row) → same r x ≡ same s x)
      → same r s ≡ true
      → put same r (put same s rows) ≡ put same r rows
  unfolding put
  put-put r s [] k h = refl
  put-put r s (x ∷ rows) k h = ground (arith, k x, put-put r s rows k h)

module _ {Row : Type 0} (clash same : Row → Row → Bool) (p : Row → Bool) where
  -- A query that found a row finds its new values, where the row keeps its key and still passes.
  pub find-put_found :
      (r s : Row) (rows : List Row)
      → ((x y : Row) → same r x ≡ true → same r y ≡ true → clash x y ≡ true)
      → ((x y : Row) → clash x y ≡ clash y x)
      → ((x : Row) → same x x ≡ true)
      → consistent clash rows ≡ true
      → find p rows ≡ some s
      → same r s ≡ true
      → p r ≡ true
      → find p (put same r rows) ≡ some r
  unfolding consistent put
  find-put_found r s [] u cm sf c e h k = absurd (ground arith)
  find-put_found r s (x ∷ rows) u cm sf c e h k = elim (Bool-cases (p x)) [
    | inl q ↦ ground arith
    | inr q ↦
        ground
          (arith, find-put_found r s rows u cm sf, clear-found clash same cm sf p x s rows, u x s)
  ]

module _ {Row : Type 0} (clash : Row → Row → Bool)
    (clash_comm : (x y : Row) → clash x y ≡ clash y x) (p q : Row → Bool) where
  clear-passes :
      (x s : Row) (rows : List Row)
      → clear clash x rows ≡ true
      → find q rows ≡ some s
      → clash x s ≡ false
  clear-passes x s [] c e = ground arith
  clear-passes x s (y ∷ rows) c e = ground (arith, clear-passes x s rows)

  -- The one row of a query is the row that a unique column of it finds.
  pub one-found :
      (r : Row) (rows : List Row)
      → PicksUnique clash q
      → consistent clash rows ≡ true
      → scalar_one_or_none (select p rows) ≡ ok (some r)
      → q r ≡ true
      → find q rows ≡ some r
  unfolding consistent scalar_one_or_none
  one-found r [] u c e k = absurd (ground arith)
  one-found r (x ∷ rows) u c e k = elim (Bool-cases (p x)) [
    | inl h ↦ first h (select p rows) refl
    | inr h ↦ ground (arith, one-found r rows u, clear-passes x r rows, u x r)
  ]
    where
      first : p x ≡ true → (l : List Row) → select p rows ≡ l → find q (x ∷ rows) ≡ some r
      first h [] m = ground arith
      first h (y ∷ l) m = absurd (ground arith)

module _ {Row : Type 0} (clash : Row → Row → Bool) (p : Row → Bool) where
  clear-select :
      (x : Row) (rows : List Row) → clear clash x rows ≡ true → clear clash x (select p rows) ≡ true
  clear-select x [] c = refl
  clear-select x (y ∷ rows) c = ground (arith, clear-select x rows)

  -- A selection of the rows keeps the constraints.
  pub consistent-select :
      (rows : List Row) → consistent clash rows ≡ true → consistent clash (select p rows) ≡ true
  unfolding consistent
  consistent-select [] c = refl
  consistent-select (x ∷ rows) c = ground (arith, clear-select x rows, consistent-select rows)

module _ {Row : Type 0} (same : Row → Row → Bool) where
  -- Where only rows of one key clash, any new values fit.
  pub fits_always : (r : Row) (rows : List Row) → fits same same r rows ≡ true
  fits_always r [] = refl
  fits_always r (x ∷ rows) = ground (arith, fits_always r rows)
