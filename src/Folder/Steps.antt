-- ===== src/Folder/Steps.antt =====
-- Each call of app/routes/folders.py that returns leaves a forest.
use floww_backend.Prelude.{
  ℕ, suc, ◌≡◌, refl, sym, subst, ◌∙◌, true, false, ◌&&◌, Option, String, none, some, ◌==◌, select,
  is_some-find, arith,
}
use floww_backend.Session.{Result, ok, err, scalar_one_or_none}
use floww_backend.Access.Data.{WorkflowFolder}
use floww_backend.Folder.Routes.{
  Db, FolderUpdate, with_id, get_folder, check_parent, check_move, insert_folder, create_folder,
  updated, update_folder, delete_folder,
}
use floww_backend.Organization.Data.{Namespace, namespace_filter}
use floww_backend.Folder.Walks.{under}
use floww_backend.Folder.Forest.{Forest, anchored, move-Forest, rename-Forest, create-Forest}
use floww_backend.Folder.Removal.{Detaches, delete-Forest}
use floww_backend.Folder.Seen.{Seen, get_folder-Seen, check_parent-Seen, check_move-Seen}
use floww_backend.Folder.Moves.{cut, apart}

pub update-Forest :
    (user_id folder_id : ℕ) (body : FolderUpdate) (db after : Db) (r : WorkflowFolder)
    → Forest db.folders
    → update_folder user_id folder_id body db ≡ ok (r, after)
    → Forest after.folders
unfolding update_folder
update-Forest user_id folder_id body db after r tree e = go (get_folder user_id folder_id db) refl
  where
    go :
        (x : Result (WorkflowFolder × Db))
        → get_folder user_id folder_id db ≡ x
        → Forest after.folders
    go (ok (f, s)) h =
        let (same, seen) = get_folder-Seen db tree.unique user_id folder_id f s h in
        moved body.parent_folder_id refl same seen
      where
        moved :
            (o : Option ℕ)
            → body.parent_folder_id ≡ o
            → s ≡ db
            → Seen user_id folder_id f db
            → Forest after.folders
        moved none k same seen =
            subst (λ l. Forest l) (ground arith)
              (rename-Forest db.folders tree f (updated f body) seen.found refl (ground arith))
        moved (some p) k same seen = checked (check_move user_id folder_id f p db) refl
          where
            checked :
                (y : Result (Unit {0} × Db))
                → check_move user_id folder_id f p db ≡ y
                → Forest after.folders
            checked (ok (_, t)) q =
                let (same_db, (parent, parent_seen, clear_of)) =
                  check_move-Seen db tree.unique user_id folder_id p f t q in
                let (low, bound) = cut db.folders tree in
                subst (λ l. Forest l) (ground arith)
                  (move-Forest db.folders low f parent (updated f body) seen.found parent_seen.found
                    (subst (λ n. under db.folders n (suc (low.rank parent.id)) parent ≡ false)
                      (sym seen.own)
                      (apart db.folders low folder_id parent bound parent_seen.found clear_of))
                    refl (ground (arith, parent_seen.own)))
            checked (err y) q = absurd (ground arith)
    go (err x) h = absurd (ground arith)

insert_folder-Forest :
    (f : WorkflowFolder) (db after : Db)
    → Forest db.folders
    → anchored db.folders f ≡ true
    → insert_folder f db ≡ ok (tt, after)
    → Forest after.folders
unfolding insert_folder
insert_folder-Forest f db after tree a e =
    subst (λ l. Forest l) (ground arith) (create-Forest db.folders tree f (ground arith) a)

pub create-Forest_run :
    (new_id user_id namespace_id : ℕ) (name : String) (parent : Option ℕ) (db after : Db)
    (r : WorkflowFolder)
    → Forest db.folders
    → create_folder new_id user_id
        (record { namespace_id = namespace_id; name = name; parent_folder_id = parent })
        db
      ≡ ok (r, after)
    → Forest after.folders
unfolding create_folder
create-Forest_run new_id user_id namespace_id name none db after r tree e =
    go
      (scalar_one_or_none
        (select (λ n. namespace_filter db.members user_id n && n.id == namespace_id) db.namespaces))
      (insert_folder new db) refl refl
  where
    new : WorkflowFolder
    new = record { id = new_id; namespace_id = namespace_id; name = name; parent_folder_id = none }

    go :
        (x : Result (Option Namespace)) (z : Result (Unit {0} × Db))
        → scalar_one_or_none (
            select
              (λ n. namespace_filter db.members user_id n && n.id == namespace_id)
              db.namespaces)
          ≡ x
        → insert_folder new db ≡ z
        → Forest after.folders
    go (ok none) z h q = absurd (ground arith)
    go (ok (some n)) (ok (u, t)) h q =
        insert_folder-Forest new db after tree refl (q ∙ ground arith)
    go (ok (some n)) (err y) h q = absurd (ground arith)
    go (err x) z h q = absurd (ground arith)
create-Forest_run new_id user_id namespace_id name (some p) db after r tree e =
    go
      (scalar_one_or_none
        (select (λ n. namespace_filter db.members user_id n && n.id == namespace_id) db.namespaces))
      (check_parent user_id namespace_id p db) refl refl
  where
    new : WorkflowFolder
    new = record {
      id = new_id;
      namespace_id = namespace_id;
      name = name;
      parent_folder_id = some p;
    }

    go :
        (x : Result (Option Namespace)) (y : Result (WorkflowFolder × Db))
        → scalar_one_or_none (
            select
              (λ n. namespace_filter db.members user_id n && n.id == namespace_id)
              db.namespaces)
          ≡ x
        → check_parent user_id namespace_id p db ≡ y
        → Forest after.folders
    go (ok none) y h q = absurd (ground arith)
    go (ok (some n)) (ok (parent, t)) h q = added (insert_folder new db) refl
      where
        added : (z : Result (Unit {0} × Db)) → insert_folder new db ≡ z → Forest after.folders
        added (ok (u, t')) g =
            let (same, seen) = check_parent-Seen db tree.unique user_id namespace_id p parent t q in
            insert_folder-Forest new db after tree
              (ground (arith, seen.own, seen.found, is_some-find (with_id parent.id) db.folders))
              (g ∙ ground arith)
        added (err x) g =
            let (same, seen) = check_parent-Seen db tree.unique user_id namespace_id p parent t q in
            absurd (ground arith)
    go (ok (some n)) (err y) h q = absurd (ground arith)
    go (err x) y h q = absurd (ground arith)

pub delete-Forest_run :
    (detach : ℕ → Option ℕ → Option ℕ) (behaves : Detaches detach) (user_id folder_id : ℕ)
    (db after : Db)
    → Forest db.folders
    → delete_folder detach user_id folder_id db ≡ ok (tt, after)
    → Forest after.folders
unfolding delete_folder
delete-Forest_run detach behaves user_id folder_id db after tree e =
    go (get_folder user_id folder_id db) refl
  where
    go :
        (x : Result (WorkflowFolder × Db))
        → get_folder user_id folder_id db ≡ x
        → Forest after.folders
    go (ok (r, s)) h =
        let (same, seen) = get_folder-Seen db tree.unique user_id folder_id r s h in
        subst (λ l. Forest l) (ground arith)
          (delete-Forest detach behaves db.folders folder_id tree)
    go (err x) h = absurd (ground arith)
