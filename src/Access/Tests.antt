-- ===== src/Access/Tests.antt =====
-- Runs of the access queries on a small hierarchy: workflow 20 lies in folder 11, which lies in folder 10.
use floww_backend.Prelude.{
  ℕ, ◌≡◌, refl, true, false, ◌||◌, ◌==◌, Option, none, some, List, [], ◌∷◌, all, is_some, select,
  if◌then◌else◌,
}
use floww_backend.Session.{ok, scalar_one_or_none}
use floww_backend.Table.{consistent}
use floww_backend.Access.Data.{
  AccessRole, owner, user, ResourceType, workflow, folder, user_principle, AccessTuple,
  WorkflowFolder, Db, ResolvedAccess, clash,
}
use floww_backend.Access.Hierarchy.{parents, rounds, folder_ancestors, folder_descendants, all_ids}
use floww_backend.Access.Queries.{
  parent_folder, inheriting_folders, get_resolved_access, get_resource_principals,
  get_accessible_resources, direct_role,
}
use floww_backend.Access.Roles.{role_for, at_least, covers, attained}
use floww_backend.Access.Agreement.{
  granted_directly, granted_above, by_principal, resolved_is_highest, principals_agree,
}
use floww_backend.Access.Termination.{hierarchy_total}
use floww_backend.Access.Listing.{typed_listing_not_expanded, by_resource, direct_listing_agrees}

abbrev granted : ResourceType → ℕ → AccessRole → AccessTuple
granted type id role = record {
  resource_type = type;
  resource_id = id;
  principle_type = user_principle;
  principle_id = 1;
  role = role;
}

abbrev tree : List WorkflowFolder
tree =
    record { id = 10; namespace_id = 1; name = "a"; parent_folder_id = none }
    ∷ record { id = 11; namespace_id = 1; name = "b"; parent_folder_id = some 10 }
    ∷ []

abbrev table : Db
table = record {
  tuples = granted workflow 20 user ∷ granted folder 10 owner ∷ [];
  folders = tree;
  workflows = record { id = 20; parent_folder_id = some 11 } ∷ [];
}

table-consistent : consistent clash table.tuples ≡ true
unfolding consistent clash
table-consistent = refl

above : inheriting_folders workflow 20 table ≡ ok (11 ∷ 10 ∷ [], table)
unfolding inheriting_folders parent_folder all_ids folder_ancestors rounds parents
    scalar_one_or_none
above = refl

resolved_is_highest_example :
    (role : Option AccessRole) × (get_resolved_access user_principle 1 workflow 20 table
      ≡ ok (role, table))
    × (all
          (λ t.
            if granted_directly user_principle 1 workflow 20 t
              || granted_above user_principle 1 (11 ∷ 10 ∷ []) t
            then covers role t.role
            else true)
          table.tuples
        ≡ true)
    × (attained role (
          select
            (λ t.
              granted_directly user_principle 1 workflow 20 t
              || granted_above user_principle 1 (11 ∷ 10 ∷ []) t)
            table.tuples)
        ≡ true)
resolved_is_highest_example =
    resolved_is_highest user_principle 1 workflow 20 (11 ∷ 10 ∷ []) table table-consistent above

principals_agree_example :
    (results : List ResolvedAccess) × (role : Option AccessRole) × (get_resource_principals workflow
        20 none
        (some owner)
        table
      ≡ ok (results, table))
    × (get_resolved_access user_principle 1 workflow 20 table ≡ ok (role, table))
    × (role_for (by_principal user_principle 1) results ≡ at_least (some owner) role)
principals_agree_example =
    principals_agree user_principle 1 workflow 20 (11 ∷ 10 ∷ []) table table-consistent above none
      (some owner) tt

-- The depth of the folders, as a rank.
abbrev depth : ℕ → ℕ
depth n = if n == 11 then 1 else 0

hierarchy_total_example :
    (is_some (folder_ancestors tree 11) ≡ true) × (is_some (folder_descendants tree 11) ≡ true)
hierarchy_total_example = hierarchy_total depth tree 11 refl

typed_listing_not_expanded_example :
    get_accessible_resources user_principle 1 (some workflow) none true table
    ≡ get_accessible_resources user_principle 1 (some workflow) none false table
typed_listing_not_expanded_example =
    typed_listing_not_expanded user_principle 1 workflow none table refl

direct_listing_agrees_example :
    (results : List ResolvedAccess) × (role : Option AccessRole) × (get_accessible_resources
        user_principle 1 none
        (some user)
        false
        table
      ≡ ok (results, table))
    × (direct_role user_principle 1 workflow 20 table ≡ ok (role, table))
    × (role_for (by_resource workflow 20) results ≡ at_least (some user) role)
direct_listing_agrees_example =
    direct_listing_agrees user_principle 1 none (some user) workflow 20 table table-consistent tt
