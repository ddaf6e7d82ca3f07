-- ===== src/Folder/Requests.antt =====
-- Sequences of calls of app/routes/folders.py: a call that raises is rolled back.
use floww_backend.Prelude.{ℕ, ◌≡◌, refl, subst, Option, List, [], ◌∷◌, arith}
use floww_backend.Session.{Session, Result, ok, err, pure, >>=-eq-ok, ◌>>◌}
use floww_backend.Folder.Routes.{
  Db, FolderCreate, FolderUpdate, create_folder, update_folder, delete_folder,
}
use floww_backend.Folder.Forest.{Forest}
use floww_backend.Folder.Removal.{Detaches}
use floww_backend.Folder.Steps.{update-Forest, create-Forest_run, delete-Forest_run}

pub data Request : Type 0 where
  create : ℕ → FolderCreate → Request
  update : ℕ → FolderUpdate → Request
  delete : ℕ → Request

unfoldable pub perform : (ℕ → Option ℕ → Option ℕ) → ℕ → Request → Session Db Unit
perform detach user_id (create new_id body) = create_folder new_id user_id body >> pure tt
perform detach user_id (update folder_id body) = update_folder user_id folder_id body >> pure tt
perform detach user_id (delete folder_id) = delete_folder detach user_id folder_id

-- The tables after the transaction of the call.
unfoldable pub serve : (ℕ → Option ℕ → Option ℕ) → ℕ × Request → Db → Db
unfolding perform
serve detach (user_id, request) db = elim (perform detach user_id request db) [
  | ok (_, after) ↦ after
  | err _ ↦ db
]

unfoldable pub serve_all : (ℕ → Option ℕ → Option ℕ) → List (ℕ × Request) → Db → Db
serve_all detach [] db = db
serve_all detach (call ∷ calls) db = serve_all detach calls (serve detach call db)

module _ (detach : ℕ → Option ℕ → Option ℕ) (behaves : Detaches detach) where
  perform-Forest :
      (user_id : ℕ) (request : Request) (db after : Db)
      → Forest db.folders
      → perform detach user_id request db ≡ ok (tt, after)
      → Forest after.folders
  unfolding perform
  perform-Forest user_id (create new_id body) db after tree e =
      let (r, s, h, k) = >>=-eq-ok (create_folder new_id user_id body) _ db e in
      subst (λ l. Forest l) (ground arith)
        (create-Forest_run new_id user_id body.namespace_id body.name body.parent_folder_id db s r
          tree h)
  perform-Forest user_id (update folder_id body) db after tree e =
      let (r, s, h, k) = >>=-eq-ok (update_folder user_id folder_id body) _ db e in
      subst (λ l. Forest l) (ground arith) (update-Forest user_id folder_id body db s r tree h)
  perform-Forest user_id (delete folder_id) db after tree e =
      delete-Forest_run detach behaves user_id folder_id db after tree e

  serve-Forest :
      (call : ℕ × Request) (db : Db) → Forest db.folders → Forest (serve detach call db).folders
  unfolding serve
  serve-Forest (user_id, request) db tree = go (perform detach user_id request db) refl
    where
      go :
          (x : Result (Unit {0} × Db))
          → perform detach user_id request db ≡ x
          → Forest (serve detach (user_id, request) db).folders
      go (ok (u, after)) h =
          subst (λ l. Forest l) (ground arith) (perform-Forest user_id request db after tree h)
      go (err x) h = subst (λ l. Forest l) (ground arith) tree

  -- Where the folders have unique identifiers, name parents that are there and no folder is its
  -- own ancestor, this holds again after any sequence of calls, by any users, that create,
  -- rename, move or delete folders, if the flush of a delete leaves no reference to the deleted
  -- row and makes none; a call that raises is rolled back.
  pub serve_all-Forest :
      (calls : List (ℕ × Request)) (db : Db)
      → Forest db.folders
      → Forest (serve_all detach calls db).folders
  unfolding serve_all
  serve_all-Forest [] db tree = tree
  serve_all-Forest (call ∷ calls) db tree =
      serve_all-Forest calls (serve detach call db) (serve-Forest call db tree)
