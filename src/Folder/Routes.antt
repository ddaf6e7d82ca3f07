-- ===== src/Folder/Routes.antt =====
-- The endpoints of app/routes/folders.py over the rows of `WorkflowFolder`, `Workflow`, `Namespace`
-- and `OrganizationMember`. The two loops along the parents run on fuel, one more than there are
-- folders; a loop that needs more never ends in the source, and fails here with an operational
-- error.
use floww_backend.Prelude.{
  ℕ, zero, suc, Bool, true, false, not, ◌&&◌, Option, none, some, List, [], ◌∷◌, ◌++◌, String, ◌==◌,
  length, select, map, is_some, if◌then◌else◌,
}
use floww_backend.Session.{
  Session, Result, ok, err, pure, raise, raise_if, lift, http_exception, operational_error,
  integrity_error, scalar_one_or_none, ◌>>=◌, ◌>>◌,
}
use floww_backend.Table.{consistent, put}
use floww_backend.Organization.Data.{OrganizationMember, Namespace, namespace_filter, in_namespace}
use floww_backend.Access.Data.{WorkflowFolder, Workflow}

pub record Db : Type 0 where
  pub namespaces : List Namespace
  pub members : List OrganizationMember
  pub folders : List WorkflowFolder
  pub workflows : List Workflow

pub record FolderCreate : Type 0 where
  pub namespace_id : ℕ
  pub name : String
  pub parent_folder_id : Option ℕ

pub record FolderUpdate : Type 0 where
  pub name : Option String
  pub parent_folder_id : Option ℕ

abbrev pub same_folder : WorkflowFolder → WorkflowFolder → Bool
same_folder a b = a.id == b.id

abbrev pub with_id : ℕ → WorkflowFolder → Bool
with_id folder_id f = f.id == folder_id

-- `UserAccessibleQuery(user_id).folders()`
unfoldable pub accessible : Db → ℕ → WorkflowFolder → Bool
accessible db user_id f = in_namespace db.namespaces db.members user_id f.namespace_id

-- That query where the identifier is given too.
unfoldable pub accessible_folder : ℕ → ℕ → Session Db (Option WorkflowFolder)
unfolding accessible
accessible_folder user_id folder_id db =
    lift
      (scalar_one_or_none (select (λ f. accessible db user_id f && with_id folder_id f) db.folders))
      db

-- The row of the parent, as the loops query it.
unfoldable pub parent_of : List WorkflowFolder → WorkflowFolder → Result (Option WorkflowFolder)
parent_of folders f = elim f.parent_folder_id [
  | none ↦ ok none
  | some p ↦ scalar_one_or_none (select (with_id p) folders)
]

same_id : Option ℕ → ℕ → Bool
same_id none n = false
same_id (some m) n = m == n

unfoldable pub list_folders : ℕ → Option ℕ → Option ℕ → Session Db (List WorkflowFolder)
unfolding accessible same_id
list_folders user_id namespace_id parent_folder_id db = ok (
  select
      (λ (f : WorkflowFolder).
        accessible db user_id f
        && (elim namespace_id [ none ↦ true | some n ↦ f.namespace_id == n ])
        && (elim parent_folder_id [
          | none ↦ not (is_some f.parent_folder_id)
          | some p ↦ same_id f.parent_folder_id p
        ]))
      db.folders,
  db,
)

unfoldable pub insert_folder : WorkflowFolder → Session Db Unit
insert_folder f db =
    let rows = db.folders ++ f ∷ [] in
    if consistent same_folder rows
    then ok (tt, record db { folders = rows })
    else err integrity_error

-- The parent that a new folder names is there and in the same namespace.
unfoldable pub check_parent : ℕ → ℕ → ℕ → Session Db WorkflowFolder
unfolding accessible_folder
check_parent user_id namespace_id parent_folder_id = do
  found ← accessible_folder user_id parent_folder_id
  elim found [
    | none ↦ raise (http_exception 400 "Parent folder not found")
    | some parent_folder ↦
        if not (parent_folder.namespace_id == namespace_id)
        then raise (http_exception 400 "Parent folder must be in the same namespace")
        else pure parent_folder
  ]

unfoldable pub create_folder : ℕ → ℕ → FolderCreate → Session Db WorkflowFolder
unfolding check_parent insert_folder
create_folder new_id user_id request = do
  namespace ← λ db.
      lift
        (scalar_one_or_none (
          select (λ n. namespace_filter db.members user_id n && n.id == request.namespace_id)
            db.namespaces))
        db
  raise_if (not (is_some namespace)) (http_exception 400 "Namespace not found")
  elim request.parent_folder_id [
    | none ↦ pure tt
    | some p ↦ check_parent user_id request.namespace_id p >> pure tt
  ]
  insert_folder (record {
    id = new_id;
    namespace_id = request.namespace_id;
    name = request.name;
    parent_folder_id = request.parent_folder_id;
  })
  pure (record {
    id = new_id;
    namespace_id = request.namespace_id;
    name = request.name;
    parent_folder_id = request.parent_folder_id;
  })

unfoldable pub get_folder : ℕ → ℕ → Session Db WorkflowFolder
unfolding accessible_folder
get_folder user_id folder_id = do
  found ← accessible_folder user_id folder_id
  elim found [ none ↦ raise (http_exception 404 "Folder not found") | some f ↦ pure f ]

-- `while current: path.insert(0, ...)`
unfoldable pub walk_path :
    List WorkflowFolder → ℕ → List WorkflowFolder → WorkflowFolder → Result (List WorkflowFolder)
unfolding parent_of
walk_path folders zero path current = err operational_error
walk_path folders (suc fuel) path current = elim (parent_of folders current) [
  | ok none ↦ ok (current ∷ path)
  | ok (some parent) ↦ walk_path folders fuel (current ∷ path) parent
  | err e ↦ err e
]

unfoldable pub get_folder_path : ℕ → ℕ → Session Db (WorkflowFolder × List WorkflowFolder)
unfolding get_folder walk_path
get_folder_path user_id folder_id = do
  folder ← get_folder user_id folder_id
  path ← λ db. lift (walk_path db.folders (suc (length db.folders)) [] folder) db
  pure (folder, path)

-- `while current_parent:` of the check for a circular reference.
unfoldable pub check_circular : List WorkflowFolder → ℕ → ℕ → WorkflowFolder → Result (Unit {0})
unfolding parent_of
check_circular folders folder_id zero current_parent = err operational_error
check_circular folders folder_id (suc fuel) current_parent = elim (current_parent.id == folder_id) [
  | true ↦ err (http_exception 400 "Cannot move folder into its own descendant")
  | false ↦ elim (parent_of folders current_parent) [
    | ok none ↦ ok tt
    | ok (some parent) ↦ check_circular folders folder_id fuel parent
    | err e ↦ err e
  ]
]

-- The checks of a move.
unfoldable pub check_move : ℕ → ℕ → WorkflowFolder → ℕ → Session Db Unit
unfolding check_parent check_circular
check_move user_id folder_id folder parent_folder_id = do
  raise_if (parent_folder_id == folder_id) (http_exception 400 "Cannot move folder to itself")
  parent_folder ← check_parent user_id folder.namespace_id parent_folder_id
  λ db. lift (check_circular db.folders folder_id (suc (length db.folders)) parent_folder) db

abbrev pub updated : WorkflowFolder → FolderUpdate → WorkflowFolder
updated folder request = record folder {
  name = elim request.name [ none ↦ folder.name | some n ↦ n ];
  parent_folder_id = elim request.parent_folder_id [
    | none ↦ folder.parent_folder_id
    | some p ↦ some p
  ];
}

unfoldable pub update_folder : ℕ → ℕ → FolderUpdate → Session Db WorkflowFolder
unfolding get_folder check_move
update_folder user_id folder_id request = do
  folder ← get_folder user_id folder_id
  elim request.parent_folder_id [ none ↦ pure tt | some p ↦ check_move user_id folder_id folder p ]
  λ db. ok (
    updated folder request,
    record db { folders = put same_folder (updated folder request) db.folders },
  )

-- `delete_response` of a folder. What the flush does to a reference to a row that is deleted is the
-- business of SQLAlchemy: `detach folder_id reference` is what it leaves of the reference.
unfoldable pub delete_folder : (ℕ → Option ℕ → Option ℕ) → ℕ → ℕ → Session Db Unit
unfolding get_folder
delete_folder detach user_id folder_id = do
  folder ← get_folder user_id folder_id
  λ db. ok (
    tt,
    record db {
      folders =
          map
            (λ (f : WorkflowFolder). record f {
              parent_folder_id = detach folder_id f.parent_folder_id;
            })
            (select (λ (f : WorkflowFolder). not (f.id == folder_id)) db.folders);
      workflows =
          map
            (λ (w : Workflow). record w { parent_folder_id = detach folder_id w.parent_folder_id })
            db.workflows;
    },
  )
