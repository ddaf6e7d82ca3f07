-- ===== src/Folder/Moves.antt =====
-- A target that the loop of app/routes/folders.py let through is not under the moved folder.
use floww_backend.Prelude.{
  ℕ, suc, ◌≡◌, true, false, ◌&&◌, some, List, leb, length, find, find-all, all, all_mono, arith,
}
use floww_backend.Session.{ok}
use floww_backend.Access.Data.{WorkflowFolder}
use floww_backend.Access.Termination.{deeper}
use floww_backend.Folder.Routes.{with_id, check_circular}
use floww_backend.Folder.Walks.{under, under_fuel, check_circular-under}
use floww_backend.Folder.Forest.{Forest}
use floww_backend.Folder.Removal.{Forest-IsForest}

-- The ranks of a forest, cut down to the number of folders.
pub cut :
    (folders : List WorkflowFolder)
    → Forest folders
    → (tree : Forest folders) × (all
          (λ (f : WorkflowFolder). leb (tree.rank f.id) (length folders))
          folders
        ≡ true)
cut folders tree =
    let (rank, forest) = Forest-IsForest folders tree in
    (
      record tree {
        rank = rank;
        grows =
            all_mono (λ (f : WorkflowFolder). leb (rank f.id) (length folders) && deeper rank f)
              (deeper rank) folders (λ x h. ground arith) forest;
      },
      all_mono (λ (f : WorkflowFolder). leb (rank f.id) (length folders) && deeper rank f)
          (λ (f : WorkflowFolder). leb (rank f.id) (length folders)) folders (λ x h. ground arith)
          forest,
    )

-- A folder that the loop let through is not under the moved one.
pub apart :
    (folders : List WorkflowFolder) (tree : Forest folders) (folder_id : ℕ) (p : WorkflowFolder)
    → all (λ (f : WorkflowFolder). leb (tree.rank f.id) (length folders)) folders ≡ true
    → find (with_id p.id) folders ≡ some p
    → check_circular folders folder_id (suc (length folders)) p ≡ ok tt
    → under folders folder_id (suc (tree.rank p.id)) p ≡ false
apart folders tree folder_id p bound found e =
    let small =
      find-all (with_id p.id) (λ (f : WorkflowFolder). leb (tree.rank f.id) (length folders))
        folders p bound found in
    let deep = find-all (with_id p.id) (deeper tree.rank) folders p tree.grows found in
    ground (
      arith,
      check_circular-under folders tree.unique tree.rank tree.grows folder_id (suc (length folders))
          p deep (ground arith),
      under_fuel folders tree.unique tree.rank tree.grows folder_id (suc (length folders))
          (suc (tree.rank p.id)) p deep (ground arith),
    )
