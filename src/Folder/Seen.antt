-- ===== src/Folder/Seen.antt =====
-- What the checks of app/routes/folders.py found where they let a call through.
use floww_backend.Prelude.{
  ℕ, suc, ◌≡◌, refl, true, ◌&&◌, Option, none, some, length, select, find, arith,
}
use floww_backend.Session.{Result, ok, err, scalar_one_or_none}
use floww_backend.Table.{consistent}
use floww_backend.Table.Rows.{one-passes}
use floww_backend.Table.Updates.{one-found}
use floww_backend.Access.Data.{WorkflowFolder}
use floww_backend.Folder.Routes.{
  Db, same_folder, with_id, accessible, accessible_folder, get_folder, check_parent, check_circular,
  check_move,
}
use floww_backend.Folder.Walks.{with_id-PicksUnique}
use floww_backend.Folder.Forest.{same_comm}

-- A row that the user may see by its identifier.
pub record Seen (user_id folder_id : ℕ) (f : WorkflowFolder) (db : Db) : Type 0 where
  pub own : f.id ≡ folder_id
  pub found : find (with_id f.id) db.folders ≡ some f
  pub allowed : accessible db user_id f ≡ true

module _ (db : Db) (valid : consistent same_folder db.folders ≡ true) where
  accessible_folder-Seen :
      (user_id folder_id : ℕ) (f : WorkflowFolder) (after : Db)
      → accessible_folder user_id folder_id db ≡ ok (some f, after)
      → (after ≡ db) × Seen user_id folder_id f db
  unfolding accessible_folder
  accessible_folder-Seen user_id folder_id f after e =
      go
        (scalar_one_or_none
          (select (λ f. accessible db user_id f && with_id folder_id f) db.folders))
        refl
    where
      go :
          (x : Result (Option WorkflowFolder))
          → scalar_one_or_none
              (select (λ f. accessible db user_id f && with_id folder_id f) db.folders)
            ≡ x
          → (after ≡ db) × Seen user_id folder_id f db
      go (ok none) h = absurd (ground arith)
      go (ok (some r)) h = (ground arith, seen (ground arith))
        where
          seen :
              scalar_one_or_none
                  (select (λ f. accessible db user_id f && with_id folder_id f) db.folders)
                ≡ ok (some f)
              → Seen user_id folder_id f db
          seen row =
              let passes =
                one-passes (λ f. accessible db user_id f && with_id folder_id f) db.folders f row in
              record {
                own = ground arith;
                allowed = ground arith;
                found =
                    one-found same_folder same_comm
                      (λ f. accessible db user_id f && with_id folder_id f) (with_id f.id) f
                      db.folders (with_id-PicksUnique f.id) valid row (ground arith);
              }
      go (err x) h = absurd (ground arith)

  pub get_folder-Seen :
      (user_id folder_id : ℕ) (f : WorkflowFolder) (after : Db)
      → get_folder user_id folder_id db ≡ ok (f, after)
      → (after ≡ db) × Seen user_id folder_id f db
  unfolding get_folder
  get_folder-Seen user_id folder_id f after e = go (accessible_folder user_id folder_id db) refl
    where
      go :
          (x : Result (Option WorkflowFolder × Db))
          → accessible_folder user_id folder_id db ≡ x
          → (after ≡ db) × Seen user_id folder_id f db
      go (ok (none, s)) h = absurd (ground arith)
      go (ok (some r, s)) h = accessible_folder-Seen user_id folder_id f after (ground arith)
      go (err x) h = absurd (ground arith)

  pub check_parent-Seen :
      (user_id namespace_id parent_id : ℕ) (f : WorkflowFolder) (after : Db)
      → check_parent user_id namespace_id parent_id db ≡ ok (f, after)
      → (after ≡ db) × Seen user_id parent_id f db
  unfolding check_parent
  check_parent-Seen user_id namespace_id parent_id f after e =
      go (accessible_folder user_id parent_id db) refl
    where
      go :
          (x : Result (Option WorkflowFolder × Db))
          → accessible_folder user_id parent_id db ≡ x
          → (after ≡ db) × Seen user_id parent_id f db
      go (ok (none, s)) h = absurd (ground arith)
      go (ok (some r, s)) h = accessible_folder-Seen user_id parent_id f after (ground arith)
      go (err x) h = absurd (ground arith)

  pub check_move-Seen :
      (user_id folder_id parent_id : ℕ) (f : WorkflowFolder) (after : Db)
      → check_move user_id folder_id f parent_id db ≡ ok (tt, after)
      → (after ≡ db)
        × ((p : WorkflowFolder) × Seen user_id parent_id p db
            × (check_circular db.folders folder_id (suc (length db.folders)) p ≡ ok tt))
  unfolding check_move
  check_move-Seen user_id folder_id parent_id f after e =
      go (check_parent user_id f.namespace_id parent_id db) refl
    where
      go :
          (x : Result (WorkflowFolder × Db))
          → check_parent user_id f.namespace_id parent_id db ≡ x
          → (after ≡ db)
            × ((p : WorkflowFolder) × Seen user_id parent_id p db
                × (check_circular db.folders folder_id (suc (length db.folders)) p ≡ ok tt))
      go (ok (p, s)) h =
          let (same, seen) = check_parent-Seen user_id f.namespace_id parent_id p s h in
          (ground arith, (p, seen, ground arith))
      go (err x) h = absurd (ground arith)
