-- ===== src/Folder/Tests.antt =====
-- Calls on three folders of one organization.
use floww_backend.Prelude.{
  ℕ, ◌≡◌, refl, true, false, arith, Option, ◌==◌, none, some, List, [], ◌∷◌, any, is_some,
  if◌then◌else◌,
}
use floww_backend.Session.{ok, err, http_exception}
use floww_backend.Table.{consistent, put}
use floww_backend.Organization.Data.{owner, in_namespace, namespace_filter, of_user}
use floww_backend.Access.Data.{WorkflowFolder}
use floww_backend.Access.Hierarchy.{folder_ancestors, folder_descendants, holds}
use floww_backend.Folder.Routes.{
  Db, FolderUpdate, accessible, same_folder, get_folder_path, updated, update_folder,
}
use floww_backend.Folder.Forest.{Forest}
use floww_backend.Folder.Requests.{Request, create, update, delete, serve_all, serve_all-Forest}
use floww_backend.Folder.Chains.{onto, with_depths}
use floww_backend.Folder.Paths.{
  get_folder_path-folder_ancestors, update_folder_moves, served_queries_end,
}
use floww_backend.Folder.Removal.{Detaches}

abbrev top_folder : WorkflowFolder
top_folder = record { id = 10; namespace_id = 1; name = "top"; parent_folder_id = none }

abbrev low_folder : WorkflowFolder
low_folder = record { id = 11; namespace_id = 1; name = "low"; parent_folder_id = some 10 }

abbrev side_folder : WorkflowFolder
side_folder = record { id = 12; namespace_id = 1; name = "side"; parent_folder_id = none }

abbrev db : Db
db = record {
  namespaces = record { id = 1; user_owner_id = none; organization_owner_id = some 3 } ∷ [];
  members = record { id = 5; organization_id = 3; user_id = 7; role = owner } ∷ [];
  folders = top_folder ∷ low_folder ∷ side_folder ∷ [];
  workflows = record { id = 20; parent_folder_id = some 11 } ∷ [];
}

unique_ids : consistent same_folder db.folders ≡ true
unfolding consistent
unique_ids = refl

abbrev tree : Forest db.folders
tree = record { unique = unique_ids; parents_exist = refl; rank = λ n. n; grows = refl }

may_use : (f : WorkflowFolder) → f.namespace_id ≡ 1 → accessible db 7 f ≡ true
unfolding accessible in_namespace namespace_filter of_user
may_use f e = rw e refl

abbrev calls : List (ℕ × Request)
calls =
    (7, update 10 (record { name = none; parent_folder_id = some 11 }))
    ∷ (7, update 10 (record { name = some "main"; parent_folder_id = some 12 }))
    ∷ (7, create 13 (record { namespace_id = 1; name = "new"; parent_folder_id = some 10 }))
    ∷ (7, delete 12)
    ∷ []

-- A reference to the deleted folder becomes NULL.
abbrev set_null : ℕ → Option ℕ → Option ℕ
set_null d none = none
set_null d (some n) = if n == d then none else some n

set_null_apart : (d : ℕ) (o : Option ℕ) → holds (set_null d o) d ≡ false
set_null_apart d none = refl
set_null_apart d (some n) = ground arith

set_null_kept : (d n : ℕ) (o : Option ℕ) → set_null d o ≡ some n → o ≡ some n
set_null_kept d n none h = h
set_null_kept d n (some m) h = ground arith

set_null-Detaches : Detaches set_null
set_null-Detaches = record { apart = set_null_apart; kept = set_null_kept }

serve_all-Forest_example : Forest (serve_all set_null calls db).folders
serve_all-Forest_example = serve_all-Forest set_null set_null-Detaches calls db tree

served_queries_end_example :
    (is_some (folder_ancestors (serve_all set_null calls db).folders 13) ≡ true)
    × (is_some (folder_descendants (serve_all set_null calls db).folders 13) ≡ true)
served_queries_end_example = served_queries_end set_null set_null-Detaches calls db 13 tree

get_folder_path-folder_ancestors_example :
    (l : List WorkflowFolder) × (get_folder_path 7 11 db ≡ ok ((low_folder, onto l []), db))
    × (folder_ancestors db.folders 11 ≡ some (with_depths 0 l))
get_folder_path-folder_ancestors_example =
    get_folder_path-folder_ancestors db tree 7 low_folder refl (may_use low_folder refl)

abbrev into_low : FolderUpdate
into_low = record { name = none; parent_folder_id = some 11 }

update_folder_moves_example :
    (above : List (ℕ × ℕ)) × (folder_ancestors db.folders 11 ≡ some above)
    × (update_folder 7 10 into_low db ≡ (
        if any (λ (r : ℕ × ℕ). r.0 == 10) above
        then err (http_exception 400 "Cannot move folder into its own descendant")
        else ok (
          updated top_folder into_low,
          record db { folders = put same_folder (updated top_folder into_low) db.folders },
        )))
update_folder_moves_example =
    update_folder_moves db tree 7 top_folder low_folder into_low refl (may_use top_folder refl) refl
      (may_use low_folder refl) refl refl refl
