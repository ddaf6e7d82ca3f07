-- ===== src/Table/Rows.antt =====
-- Properties that all rows of a table have: what a query of one row, an update and a selection keep.
use floww_backend.Prelude.{
  none, ◌++◌, Bool-cases, inl, inr, ◌≡◌, refl, Bool, true, some, List, [], ◌∷◌, all, select, arith,
  if◌then◌else◌,
}
use floww_backend.Session.{ok, scalar_one_or_none}
use floww_backend.Table.{put}

module _ {Row : Type 0} where
  pub all-put :
      (same : Row → Row → Bool) (q : Row → Bool) (r : Row) (rows : List Row)
      → all q rows ≡ true
      → q r ≡ true
      → all q (put same r rows) ≡ true
  unfolding put
  all-put same q r [] h k = refl
  all-put same q r (x ∷ rows) h k = ground (arith, all-put same q r rows)

  pub all-select :
      (q p : Row → Bool) (rows : List Row) → all q rows ≡ true → all q (select p rows) ≡ true
  all-select q p [] h = refl
  all-select q p (x ∷ rows) h = ground (arith, all-select q p rows)

  pub all-one :
      (q : Row → Bool) (rows : List Row) (r : Row)
      → all q rows ≡ true
      → scalar_one_or_none rows ≡ ok (some r)
      → q r ≡ true
  unfolding scalar_one_or_none
  all-one q [] r a e = absurd (ground arith)
  all-one q (x ∷ []) r a e = ground arith
  all-one q (x ∷ y ∷ rows) r a e = absurd (ground arith)

  -- What every row has the row of a query has too.
  pub one-all :
      (q p : Row → Bool) (rows : List Row) (r : Row)
      → all q rows ≡ true
      → scalar_one_or_none (select p rows) ≡ ok (some r)
      → q r ≡ true
  one-all q p rows r h k = all-one q (select p rows) r (all-select q p rows h) k

  all-picked : (p : Row → Bool) (rows : List Row) → all p (select p rows) ≡ true
  all-picked p [] = refl
  all-picked p (x ∷ rows) = ground (arith, all-picked p rows)

  pub one-passes :
      (p : Row → Bool) (rows : List Row) (r : Row)
      → scalar_one_or_none (select p rows) ≡ ok (some r)
      → p r ≡ true
  one-passes p rows r k = all-one p (select p rows) r (all-picked p rows) k

  -- Where a query has one row, an update of that row leaves no other row that passes it.
  pub put-only :
      (same : Row → Row → Bool) (q p : Row → Bool) (r : Row) (rows : List Row)
      → all (same r) (select p rows) ≡ true
      → q r ≡ true
      → all (λ x. if p x then q x else true) (put same r rows) ≡ true
  unfolding put
  put-only same q p r [] h k = refl
  put-only same q p r (x ∷ rows) h k = ground (arith, put-only same q p r rows)

  pub every-one :
      (q : Row → Bool) (rows : List Row) (r : Row)
      → scalar_one_or_none rows ≡ ok (some r)
      → q r ≡ true
      → all q rows ≡ true
  unfolding scalar_one_or_none
  every-one q [] r e h = refl
  every-one q (x ∷ []) r e h = ground arith
  every-one q (x ∷ y ∷ rows) r e h = absurd (ground arith)

  pub all-guarded :
      (q p : Row → Bool) (rows : List Row)
      → all q (select p rows) ≡ true
      → all (λ x. if p x then q x else true) rows ≡ true
  all-guarded q p [] h = refl
  all-guarded q p (x ∷ rows) h = ground (arith, all-guarded q p rows)

  not_none : (x : Row) (l : List Row) → scalar_one_or_none (x ∷ l) ≡ ok none → ⊥
  unfolding scalar_one_or_none
  not_none x [] q = ground arith
  not_none x (y ∷ l) q = ground arith

  -- A row that is inserted where the query found none is the one that it finds afterwards.
  pub scalar-append :
      (p : Row → Bool) (rows : List Row) (a : Row)
      → scalar_one_or_none (select p rows) ≡ ok none
      → p a ≡ true
      → scalar_one_or_none (select p (rows ++ a ∷ [])) ≡ ok (some a)
  unfolding scalar_one_or_none
  scalar-append p [] a h k = rw k refl
  scalar-append p (x ∷ rows) a h k = elim (Bool-cases (p x)) [
    | inl e ↦ absurd (not_none x (select p rows) (simp e at h))
    | inr e ↦ rw e (scalar-append p rows a (simp e at h) k)
  ]
