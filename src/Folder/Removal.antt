-- ===== src/Folder/Removal.antt =====
-- The delete of a folder of app/routes/folders.py on a forest, and the depth of a forest.
use floww_backend.Prelude.{
  ℕ, ◌≤◌, ◌<◌, ◌≡◌, refl, inl, inr, true, false, not, ◌&&◌, Option, some, Option-cases, List, [],
  ◌∷◌, ◌==◌, leb, length, select, map, all, any, arith,
}
use floww_backend.Table.{consistent, clear}
use floww_backend.Access.Data.{WorkflowFolder}
use floww_backend.Access.Hierarchy.{holds}
use floww_backend.Access.Termination.{deeper, IsForest}
use floww_backend.Folder.Routes.{same_folder, with_id}
use floww_backend.Folder.Forest.{Forest, anchored}

-- What a flush that deletes a row does to the references in rows that it keeps, for a relationship
-- without a delete cascade: none to the deleted row is left, and none is new.
pub record Detaches (detach : ℕ → Option ℕ → Option ℕ) : Type 0 where
  pub apart : (d : ℕ) (o : Option ℕ) → holds (detach d o) d ≡ false
  pub kept : (d n : ℕ) (o : Option ℕ) → detach d o ≡ some n → o ≡ some n

module _ (detach : ℕ → Option ℕ → Option ℕ) (behaves : Detaches detach) where
  abbrev released : ℕ → WorkflowFolder → WorkflowFolder
  released d f = record f { parent_folder_id = detach d f.parent_folder_id }

  abbrev pub remaining : ℕ → List WorkflowFolder → List WorkflowFolder
  remaining d rows = map (released d) (select (λ (f : WorkflowFolder). not (f.id == d)) rows)

  clear-remaining :
      (d : ℕ) (x y : WorkflowFolder) (rows : List WorkflowFolder)
      → y.id ≡ x.id
      → clear same_folder x rows ≡ true
      → clear same_folder y (remaining d rows) ≡ true
  clear-remaining d x y [] e c = refl
  clear-remaining d x y (z ∷ rows) e c = ground (arith, clear-remaining d x y rows e)

  unique-remaining :
      (d : ℕ) (rows : List WorkflowFolder)
      → consistent same_folder rows ≡ true
      → consistent same_folder (remaining d rows) ≡ true
  unfolding consistent
  unique-remaining d [] c = refl
  unique-remaining d (x ∷ rows) c =
      ground (arith, unique-remaining d rows, clear-remaining d x (released d x) rows refl)

  any-remaining :
      (d n : ℕ) (rows : List WorkflowFolder)
      → (n == d) ≡ false
      → any (with_id n) rows ≡ true
      → any (with_id n) (remaining d rows) ≡ true
  any-remaining d n [] e h = ground arith
  any-remaining d n (x ∷ rows) e h = ground (arith, any-remaining d n rows e)

  anchored-remaining :
      (d : ℕ) (folders rows : List WorkflowFolder)
      → all (anchored folders) rows ≡ true
      → all (anchored (remaining d folders)) (remaining d rows) ≡ true
  anchored-remaining d folders [] h = refl
  anchored-remaining d folders (x ∷ rows) h = elim (Option-cases (detach d x.parent_folder_id)) [
    | inl e ↦ ground (arith, anchored-remaining d folders rows)
    | inr (n, e) ↦ ground (
      arith,
      anchored-remaining d folders rows,
      any-remaining d n folders,
      behaves.kept d n x.parent_folder_id e,
      behaves.apart d x.parent_folder_id,
    )
  ]

  deeper-remaining :
      (rank : ℕ → ℕ) (d : ℕ) (rows : List WorkflowFolder)
      → all (deeper rank) rows ≡ true
      → all (deeper rank) (remaining d rows) ≡ true
  deeper-remaining rank d [] h = refl
  deeper-remaining rank d (x ∷ rows) h = elim (Option-cases (detach d x.parent_folder_id)) [
    | inl e ↦ ground (arith, deeper-remaining rank d rows)
    | inr (n, e) ↦
        ground (arith, deeper-remaining rank d rows, behaves.kept d n x.parent_folder_id e)
  ]

  pub delete-Forest :
      (folders : List WorkflowFolder) (d : ℕ) → Forest folders → Forest (remaining d folders)
  delete-Forest folders d tree = record {
    unique = unique-remaining d folders tree.unique;
    parents_exist = anchored-remaining d folders folders tree.parents_exist;
    rank = tree.rank;
    grows = deeper-remaining tree.rank d folders tree.grows;
  }

-- The number of folders of at most this rank.
abbrev count : (ℕ → ℕ) → ℕ → List WorkflowFolder → ℕ
count rank k rows = length (select (λ (f : WorkflowFolder). leb (rank f.id) k) rows)

count_le : (rank : ℕ → ℕ) (k : ℕ) (rows : List WorkflowFolder) → count rank k rows ≤ length rows
count_le rank k [] = omega arith
count_le rank k (x ∷ rows) = ground (arith, count_le rank k rows)

count_mono :
    (rank : ℕ → ℕ) (k m : ℕ) (rows : List WorkflowFolder)
    → k ≤ m
    → count rank k rows ≤ count rank m rows
count_mono rank k m [] l = omega arith
count_mono rank k m (x ∷ rows) l = ground (arith, count_mono rank k m rows l)

count_grows :
    (rank : ℕ → ℕ) (k : ℕ) (f : WorkflowFolder) (rows : List WorkflowFolder)
    → any (with_id f.id) rows ≡ true
    → k < rank f.id
    → count rank k rows < count rank (rank f.id) rows
count_grows rank k f [] a l = absurd (ground arith)
count_grows rank k f (x ∷ rows) a l =
    ground (arith, count_mono rank k (rank f.id) rows, count_grows rank k f rows)

-- Counted ranks are at most the number of folders.
counted_ranks :
    (rank : ℕ → ℕ) (folders rows : List WorkflowFolder)
    → ((x : WorkflowFolder) → any (with_id x.id) rows ≡ true → any (with_id x.id) folders ≡ true)
    → all (deeper rank) rows ≡ true
    → all
        (λ (f : WorkflowFolder).
          leb (count rank (rank f.id) folders) (length folders)
          && deeper (λ n. count rank (rank n) folders) f)
        rows
      ≡ true
counted_ranks rank folders [] s d = refl
counted_ranks rank folders (x ∷ rows) s d = elim (Option-cases x.parent_folder_id) [
  | inl e ↦ ground (
    arith,
    count_le rank (rank x.id) folders,
    counted_ranks rank folders rows (λ y h. s y (ground (arith, h))),
  )
  | inr (n, e) ↦ ground (
    arith,
    count_le rank (rank x.id) folders,
    counted_ranks rank folders rows (λ y h. s y (ground (arith, h))),
    count_grows rank (rank n) x folders (s x (ground arith)),
  )
]

-- A forest has a rank of which no folder has more than there are folders.
pub Forest-IsForest :
    (folders : List WorkflowFolder) → Forest folders → (rank : ℕ → ℕ) × IsForest rank folders
Forest-IsForest folders tree = (
  λ n. count tree.rank (tree.rank n) folders,
  counted_ranks tree.rank folders folders (λ x h. h) tree.grows,
)
