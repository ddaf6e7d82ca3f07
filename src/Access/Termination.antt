-- ===== src/Access/Termination.antt =====
-- The recursive queries of app/services/access_service.py on forests of folders.
use floww_backend.Prelude.{
  ℕ, zero, suc, ◌+◌, ◌-◌, ◌≡◌, refl, Bool, true, ◌&&◌, none, some, List, [], ◌∷◌, ◌++◌, all,
  all-append, select, length, ltb, leb, ◌==◌, is_some, arith,
}
use floww_backend.Access.Data.{WorkflowFolder}
use floww_backend.Access.Hierarchy.{
  holds, parents, children, rounds, folder_ancestors, folder_descendants,
}

-- A measure that falls from a row to the rows that the step makes of it.
record Falls (step : List WorkflowFolder → List WorkflowFolder) (good : WorkflowFolder → Bool)
    (measure : ℕ → ℕ) : Type 0 where
  keeps : (rows : List WorkflowFolder) → all good rows ≡ true → all good (step rows) ≡ true
  falls :
      (k : ℕ) (rows : List WorkflowFolder)
      → all good rows ≡ true
      → all (λ (f : WorkflowFolder). ltb (measure f.id) (suc k)) rows ≡ true
      → all (λ (f : WorkflowFolder). ltb (measure f.id) k) (step rows) ≡ true

rounds_total :
    (step : List WorkflowFolder → List WorkflowFolder) (good : WorkflowFolder → Bool)
    (measure : ℕ → ℕ)
    → Falls step good measure
    → (fuel depth : ℕ) (rows : List WorkflowFolder) → all good rows ≡ true
    → all (λ (f : WorkflowFolder). ltb (measure f.id) fuel) rows ≡ true
    → is_some (rounds step fuel depth rows) ≡ true
unfolding rounds
rounds_total step good measure f fuel depth [] g h = refl
rounds_total step good measure f zero depth (w ∷ rows) g h = absurd (ground arith)
rounds_total step good measure f (suc fuel) depth (w ∷ rows) g h = ground (
  arith,
  rounds_total step good measure f fuel (depth + 1) (step (w ∷ rows)) (f.keeps (w ∷ rows) g)
      (f.falls fuel (w ∷ rows) g h),
)

module _ (rank : ℕ → ℕ) where
  -- The folder stands deeper than its parent.
  abbrev pub deeper : WorkflowFolder → Bool
  deeper f = elim f.parent_folder_id [ none ↦ true | some p ↦ ltb (rank p) (rank f.id) ]

  -- A rank that grows from each folder to its children and is at most the number of folders: its
  -- depth in the forest is such a rank.
  abbrev pub IsForest : List WorkflowFolder → Type 0
  IsForest folders =
      all (λ (f : WorkflowFolder). leb (rank f.id) (length folders) && deeper f) folders ≡ true

  abbrev good : ℕ → WorkflowFolder → Bool
  good bound f = leb (rank f.id) bound && deeper f

  all-picked :
      (q p : WorkflowFolder → Bool) (rows : List WorkflowFolder)
      → all q rows ≡ true
      → all q (select p rows) ≡ true
  all-picked q p [] h = refl
  all-picked q p (x ∷ rows) h = ground (arith, all-picked q p rows)

  parent_falls :
      (k : ℕ) (w : WorkflowFolder) (rows : List WorkflowFolder)
      → deeper w ≡ true
      → ltb (rank w.id) (suc k) ≡ true
      → all
          (λ (f : WorkflowFolder). ltb (rank f.id) k)
          (select (λ (p : WorkflowFolder). holds w.parent_folder_id p.id) rows)
        ≡ true
  parent_falls k w [] d h = refl
  parent_falls k w (x ∷ rows) d h = ground (arith, parent_falls k w rows d h)

  child_falls :
      (bound k n : ℕ) (rows : List WorkflowFolder)
      → all (good bound) rows ≡ true
      → ltb (bound - rank n) (suc k) ≡ true
      → all
          (λ (f : WorkflowFolder). ltb (bound - rank f.id) k)
          (select (λ (c : WorkflowFolder). holds c.parent_folder_id n) rows)
        ≡ true
  child_falls bound k n [] g h = refl
  child_falls bound k n (x ∷ rows) g h = ground (arith, child_falls bound k n rows)

  all-join :
      (q : WorkflowFolder → Bool) (xs ys : List WorkflowFolder)
      → all q xs ≡ true
      → all q ys ≡ true
      → all q (xs ++ ys) ≡ true
  all-join q xs ys h k = ground (arith, all-append q xs ys)

  module _ (folders : List WorkflowFolder) (bound : ℕ)
      (forest : all (good bound) folders ≡ true) where
    parents_keep :
        (rows : List WorkflowFolder)
        → all (good bound) rows ≡ true
        → all (good bound) (parents folders rows) ≡ true
    unfolding parents
    parents_keep [] g = refl
    parents_keep (w ∷ rows) g =
        all-join (good bound) _ (parents folders rows) (all-picked (good bound) _ folders forest)
          (parents_keep rows (ground arith))

    parents_fall :
        (k : ℕ) (rows : List WorkflowFolder)
        → all (good bound) rows ≡ true
        → all (λ (f : WorkflowFolder). ltb (rank f.id) (suc k)) rows ≡ true
        → all (λ (f : WorkflowFolder). ltb (rank f.id) k) (parents folders rows) ≡ true
    unfolding parents
    parents_fall k [] g h = refl
    parents_fall k (w ∷ rows) g h =
        all-join (λ (f : WorkflowFolder). ltb (rank f.id) k) _ (parents folders rows)
          (parent_falls k w folders (ground arith) (ground arith))
          (parents_fall k rows (ground arith) (ground arith))

    children_keep :
        (rows : List WorkflowFolder)
        → all (good bound) rows ≡ true
        → all (good bound) (children folders rows) ≡ true
    unfolding children
    children_keep [] g = refl
    children_keep (w ∷ rows) g =
        all-join (good bound) _ (children folders rows) (all-picked (good bound) _ folders forest)
          (children_keep rows (ground arith))

    children_fall :
        (k : ℕ) (rows : List WorkflowFolder)
        → all (good bound) rows ≡ true
        → all (λ (f : WorkflowFolder). ltb (bound - rank f.id) (suc k)) rows ≡ true
        → all (λ (f : WorkflowFolder). ltb (bound - rank f.id) k) (children folders rows) ≡ true
    unfolding children
    children_fall k [] g h = refl
    children_fall k (w ∷ rows) g h =
        all-join (λ (f : WorkflowFolder). ltb (bound - rank f.id) k) _ (children folders rows)
          (child_falls bound k w.id folders forest (ground arith))
          (children_fall k rows (ground arith) (ground arith))

  -- Where a rank that grows from each folder to its children is at most the number of folders,
  -- the query of the ancestors and the query of the descendants of any folder both end.
  pub hierarchy_total :
      (folders : List WorkflowFolder) (folder_id : ℕ)
      → IsForest folders
      → (is_some (folder_ancestors folders folder_id) ≡ true)
        × (is_some (folder_descendants folders folder_id) ≡ true)
  unfolding folder_ancestors folder_descendants
  hierarchy_total folders folder_id forest = (
    rounds_total (parents folders) (good bound) rank
        (record {
          keeps = parents_keep folders bound forest;
          falls = parents_fall folders bound forest;
        })
        (suc bound) 0 start kept (small start kept),
    rounds_total (children folders) (good bound) (λ n. bound - rank n)
        (record {
          keeps = children_keep folders bound forest;
          falls = children_fall folders bound forest;
        })
        (suc bound) 0 start kept (short start),
  )
    where
      bound : ℕ
      bound = length folders

      start : List WorkflowFolder
      start = select (λ f. f.id == folder_id) folders

      kept : all (good bound) start ≡ true
      kept = all-picked (good bound) _ folders forest

      small :
          (rows : List WorkflowFolder)
          → all (good bound) rows ≡ true
          → all (λ (f : WorkflowFolder). ltb (rank f.id) (suc bound)) rows ≡ true
      small [] g = refl
      small (x ∷ rows) g = ground (arith, small rows (ground arith))

      short :
          (rows : List WorkflowFolder)
          → all (λ (f : WorkflowFolder). ltb (bound - rank f.id) (suc bound)) rows ≡ true
      short [] = refl
      short (x ∷ rows) = ground (arith, short rows)
