-- ===== src/Folder/Paths.antt =====
-- The chain of parents of a folder in app/routes/folders.py and in the recursive query of
-- app/services/access_service.py.
use floww_backend.Prelude.{
  ℕ, suc, ◌≡◌, refl, sym, ap, ◌∙◌, true, false, ◌&&◌, Option, none, some, List, [], ◌∷◌, ◌==◌, leb,
  length, select, select_ext, select-select, ==_refl, find, find-all, any, is_some, if◌then◌else◌,
  arith,
}
use floww_backend.Session.{lift, raise_if, ◌>>=◌, ◌>>◌, ok, err, http_exception, scalar_one_or_none}
use floww_backend.Table.{put}
use floww_backend.Access.Data.{WorkflowFolder}
use floww_backend.Access.Hierarchy.{parents, rounds, folder_ancestors, folder_descendants}
use floww_backend.Access.Termination.{deeper, hierarchy_total}
use floww_backend.Folder.Routes.{
  Db, FolderUpdate, same_folder, with_id, accessible, accessible_folder, check_circular,
  check_parent, check_move, get_folder, get_folder_path, updated, update_folder,
}
use floww_backend.Folder.Walks.{check_circular-under}
use floww_backend.Folder.Forest.{Forest}
use floww_backend.Folder.Removal.{Forest-IsForest}
use floww_backend.Folder.Moves.{cut}
use floww_backend.Folder.Removal.{Detaches}
use floww_backend.Folder.Requests.{Request, serve_all, serve_all-Forest}
use floww_backend.Folder.Chains.{
  climb, with_depths, onto, walk_path-climb, climb_total, rounds-climb, under-climb, with_id-row,
}

-- The chain from a folder of the table ends within the fuel of the loops.
chain :
    (folders : List WorkflowFolder) (tree : Forest folders) (f : WorkflowFolder)
    → find (with_id f.id) folders ≡ some f
    → (l : List WorkflowFolder) × (climb folders (suc (length folders)) f ≡ some l)
chain folders tree f found = go (climb folders (suc (length folders)) f) refl
  where
    go :
        (c : Option (List WorkflowFolder))
        → climb folders (suc (length folders)) f ≡ c
        → (l : List WorkflowFolder) × (climb folders (suc (length folders)) f ≡ some l)
    go none e =
        let (low, bound) = cut folders tree in
        absurd (
          ground (
            arith,
            climb_total folders low (suc (length folders)) f,
            find-all (with_id f.id) (deeper low.rank) folders f low.grows found,
            find-all (with_id f.id) (λ (g : WorkflowFolder). leb (low.rank g.id) (length folders))
                folders f bound found,
          ))
    go (some l) e = (l, e)

module _ (folders : List WorkflowFolder) (tree : Forest folders) (f : WorkflowFolder)
    (found : find (with_id f.id) folders ≡ some f) where
  base_row : select (λ (g : WorkflowFolder). g.id == f.id) folders ≡ f ∷ []
  base_row = with_id-row folders tree f.id ∙ rw found refl

  ancestors-chain :
      folder_ancestors folders f.id ≡ some (with_depths 0 (chain folders tree f found).0)
  unfolding folder_ancestors
  ancestors-chain =
      ap (λ rows. rounds (parents folders) (suc (length folders)) 0 rows) base_row
      ∙ rounds-climb folders tree (suc (length folders)) 0 f (chain folders tree f found).0
          (chain folders tree f found).1

  -- On a forest the recursive query ends, and the loop of a move refuses the target exactly where the query lists the moved folder.
  circular-ancestors :
      (folder_id : ℕ)
      → check_circular folders folder_id (suc (length folders)) f ≡ (
          if any (λ (r : ℕ × ℕ). r.0 == folder_id) (with_depths 0 (chain folders tree f found).0)
          then err (http_exception 400 "Cannot move folder into its own descendant")
          else ok tt)
  circular-ancestors folder_id =
      let (low, bound) = cut folders tree in
      ground (
        arith,
        under-climb folders tree folder_id (suc (length folders)) 0 f (chain folders tree f found).0
            (chain folders tree f found).1,
        check_circular-under folders low.unique low.rank low.grows folder_id (suc (length folders))
            f (find-all (with_id f.id) (deeper low.rank) folders f low.grows found)
            (ground (
              arith,
              find-all (with_id f.id) (λ (g : WorkflowFolder). leb (low.rank g.id) (length folders))
                  folders f bound found,
            )),
      )

module _ (db : Db) (tree : Forest db.folders) (user_id : ℕ) where
  accessible_folder-find :
      (f : WorkflowFolder)
      → find (with_id f.id) db.folders ≡ some f
      → accessible db user_id f ≡ true
      → accessible_folder user_id f.id db ≡ ok (some f, db)
  unfolding accessible_folder scalar_one_or_none
  accessible_folder-find f found allowed =
      let rows =
        select_ext (λ x. accessible db user_id x && with_id f.id x)
          (λ x. with_id f.id x && accessible db user_id x) db.folders (λ x. ground arith)
        ∙ sym (select-select (accessible db user_id) (with_id f.id) db.folders)
        ∙ ap (λ l. select (accessible db user_id) l) (base_row db.folders tree f found) in
      rw (rows, allowed) refl

  get_folder-find :
      (f : WorkflowFolder)
      → find (with_id f.id) db.folders ≡ some f
      → accessible db user_id f ≡ true
      → get_folder user_id f.id db ≡ ok (f, db)
  unfolding get_folder
  get_folder-find f found allowed =
      rw (get_folder, ◌>>=◌, accessible_folder-find f found allowed) refl

  -- On a forest of folders, the path endpoint answers for an accessible folder, and its path is
  -- the chain of folders that the ancestor query of the access service lists with depths from 0,
  -- in opposite order.
  pub get_folder_path-folder_ancestors :
      (f : WorkflowFolder)
      → find (with_id f.id) db.folders ≡ some f
      → accessible db user_id f ≡ true
      → (l : List WorkflowFolder) × (get_folder_path user_id f.id db ≡ ok ((f, onto l []), db))
        × (folder_ancestors db.folders f.id ≡ some (with_depths 0 l))
  unfolding get_folder_path
  get_folder_path-folder_ancestors f found allowed =
      let (l, climbed) = chain db.folders tree f found in
      (
        l,
        rw
            (
              get_folder_path,
              ◌>>=◌,
              get_folder-find f found allowed,
              ◌>>=◌,
              walk_path-climb db.folders tree (suc (length db.folders)) [] l f climbed,
            )
            refl,
        ancestors-chain db.folders tree f found,
      )

  check_move-circular :
      (f p : WorkflowFolder)
      → find (with_id p.id) db.folders ≡ some p
      → accessible db user_id p ≡ true
      → p.namespace_id ≡ f.namespace_id
      → (p.id == f.id) ≡ false
      → check_move user_id f.id f p.id db
        ≡ lift (check_circular db.folders f.id (suc (length db.folders)) p) db
  unfolding check_move
  check_move-circular f p parent_found parent_allowed same_ns other =
      rw
        (
          check_move,
          ◌>>◌,
          ◌>>=◌,
          other,
          raise_if,
          ◌>>=◌,
          check_parent,
          ◌>>=◌,
          accessible_folder-find p parent_found parent_allowed,
          same_ns,
          ==_refl f.namespace_id,
        )
        refl

  -- On a forest of folders, moving an accessible folder below another accessible one of its
  -- namespace that is not itself succeeds, and stores the new parent and name, exactly unless
  -- the ancestor query of the access service lists the moved folder for the target; then it is
  -- refused as circular.
  pub update_folder_moves :
      (f p : WorkflowFolder) (body : FolderUpdate)
      → find (with_id f.id) db.folders ≡ some f
      → accessible db user_id f ≡ true
      → find (with_id p.id) db.folders ≡ some p
      → accessible db user_id p ≡ true
      → p.namespace_id ≡ f.namespace_id
      → (p.id == f.id) ≡ false
      → body.parent_folder_id ≡ some p.id
      → (above : List (ℕ × ℕ)) × (folder_ancestors db.folders p.id ≡ some above)
        × (update_folder user_id f.id body db ≡ (
            if any (λ (r : ℕ × ℕ). r.0 == f.id) above
            then err (http_exception 400 "Cannot move folder into its own descendant")
            else ok (
              updated f body,
              record db { folders = put same_folder (updated f body) db.folders },
            )))
  unfolding update_folder
  update_folder_moves f p body found allowed parent_found parent_allowed same_ns other target = (
    with_depths 0 (chain db.folders tree p parent_found).0,
    ancestors-chain db.folders tree p parent_found,
    rw
        (
          update_folder,
          ◌>>=◌,
          get_folder-find f found allowed,
          target,
          ◌>>◌,
          ◌>>=◌,
          check_move-circular f p parent_found parent_allowed same_ns other,
          circular-ancestors db.folders tree p parent_found f.id,
        )
        (ground arith),
  )

-- From a forest of folders, after any sequence of calls of the folder endpoints, where the flush
-- of a delete leaves no reference to the deleted row and makes none, both recursive queries of
-- the access service end for every folder.
pub served_queries_end :
    (detach : ℕ → Option ℕ → Option ℕ) (behaves : Detaches detach) (calls : List (ℕ × Request))
    (db : Db) (folder_id : ℕ)
    → Forest db.folders
    → (is_some (folder_ancestors (serve_all detach calls db).folders folder_id) ≡ true)
      × (is_some (folder_descendants (serve_all detach calls db).folders folder_id) ≡ true)
served_queries_end detach behaves calls db folder_id tree =
    let (rank, forest) =
      Forest-IsForest (serve_all detach calls db).folders
        (serve_all-Forest detach behaves calls db tree) in
    hierarchy_total rank (serve_all detach calls db).folders folder_id forest
