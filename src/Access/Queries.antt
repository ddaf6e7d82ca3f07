-- ===== src/Access/Queries.antt =====
-- The three queries of app/services/access_service.py. The dictionaries of results are lists in
-- order of insertion, which hold one entry of a key.
use floww_backend.Prelude.{
  ℕ, Bool, true, false, not, ◌&&◌, Option, none, some, List, [], ◌∷◌, ltb, ◌==◌, any, select, map,
  if◌then◌else◌,
}
use floww_backend.Session.{Session, pure, gets, lift, ◌>>=◌, scalar_one_or_none}
use floww_backend.Access.Data.{
  AccessRole, ResourceType, PrincipleType, workflow, folder, provider, AccessTuple, Workflow, Db,
  ResolvedAccess, role_priority, role_meets_minimum, same_type, same_principle,
}
use floww_backend.Access.Hierarchy.{
  folder_ancestors, folder_descendants, all_ids, proper_ids, holds,
}

abbrev pub among : List ℕ → ℕ → Bool
among ids n = any (λ m. m == n) ids

abbrev pub is_workflow : ℕ → Workflow → Bool
is_workflow n w = w.id == n

parent_of : Option Workflow → Option ℕ
parent_of none = none
parent_of (some w) = w.parent_folder_id

-- `select(Workflow.parent_folder_id).where(Workflow.id == resource_id)`: no row and NULL are one.
unfoldable pub parent_folder : ℕ → Session Db (Option ℕ)
unfolding parent_of
parent_folder resource_id db =
    (do
      row ← lift (scalar_one_or_none (select (is_workflow resource_id) db.workflows))
      pure (parent_of row))
      db

-- The folders through which a resource inherits access: for a workflow its folder with that one's
-- ancestors, for a folder its proper ancestors, for a provider none.
unfoldable pub inheriting_folders : ResourceType → ℕ → Session Db (List ℕ)
inheriting_folders workflow resource_id = do
  parent ← parent_folder resource_id
  elim parent [ none ↦ pure [] | some p ↦ λ db. all_ids (folder_ancestors db.folders p) db ]
inheriting_folders folder resource_id =
    λ db. proper_ids (folder_ancestors db.folders resource_id) db
inheriting_folders provider resource_id = pure []

-- `ROLE_PRIORITY[new] > ROLE_PRIORITY[old]`
abbrev pub higher : AccessRole → AccessRole → Bool
higher new old = ltb (role_priority old) (role_priority new)

-- One round of the loop over roles in `get_resolved_access`.
unfoldable pub raise_to : Option AccessRole → AccessRole → Option AccessRole
raise_to none role = some role
raise_to (some old) role = if higher role old then some role else some old

unfoldable pub raise_all : Option AccessRole → List AccessTuple → Option AccessRole
unfolding raise_to
raise_all highest [] = highest
raise_all highest (t ∷ tuples) = raise_all (raise_to highest t.role) tuples

abbrev pub of_principal : PrincipleType → ℕ → AccessTuple → Bool
of_principal pt pid t = same_principle t.principle_type pt && t.principle_id == pid

abbrev pub on_resource : ResourceType → ℕ → AccessTuple → Bool
on_resource rt rid t = same_type t.resource_type rt && t.resource_id == rid

abbrev pub on_folders : List ℕ → AccessTuple → Bool
on_folders ids t = same_type t.resource_type folder && among ids t.resource_id

unfoldable pub role_of_row : Option AccessTuple → Option AccessRole
role_of_row none = none
role_of_row (some t) = some t.role

-- The check of direct access.
unfoldable pub direct_role : PrincipleType → ℕ → ResourceType → ℕ → Session Db (Option AccessRole)
direct_role pt pid rt rid db =
    (do
      direct ← lift (
          scalar_one_or_none
            (select (λ t. of_principal pt pid t && on_resource rt rid t) db.tuples))
      pure (role_of_row direct))
      db

unfoldable pub get_resolved_access :
    PrincipleType → ℕ → ResourceType → ℕ → Session Db (Option AccessRole)
get_resolved_access pt pid rt rid = do
  direct ← direct_role pt pid rt rid
  folders ← inheriting_folders rt rid
  tuples ← gets (λ (db : Db). db.tuples)
  pure (raise_all direct (select (λ t. of_principal pt pid t && on_folders folders t) tuples))

-- `results[key] = access`, where the key is missing or has a lower role.
unfoldable pub keep_higher :
    (ResolvedAccess → ResolvedAccess → Bool)
    → ResolvedAccess
    → List ResolvedAccess
    → List ResolvedAccess
keep_higher same_key access [] = access ∷ []
keep_higher same_key access (r ∷ results) =
    if same_key access r
    then (if higher access.role r.role then access ∷ results else r ∷ results)
    else r ∷ keep_higher same_key access results

-- `min_role and not role_meets_minimum(role, min_role)` is false.
unfoldable pub passes : Option AccessRole → AccessRole → Bool
passes none role = true
passes (some min_role) role = role_meets_minimum role min_role

-- The loops over access tuples: `make` builds the entry.
unfoldable pub offer_tuples :
    (ResolvedAccess → ResolvedAccess → Bool)
    → Option AccessRole
    → (AccessTuple → ResolvedAccess)
    → List AccessTuple
    → List ResolvedAccess
    → List ResolvedAccess
unfolding keep_higher passes
offer_tuples same_key min_role make [] results = results
offer_tuples same_key min_role make (t ∷ tuples) results =
    offer_tuples same_key min_role make tuples
      (if passes min_role t.role then keep_higher same_key (make t) results else results)

unfoldable pub same_principal : ResolvedAccess → ResolvedAccess → Bool
same_principal a b =
    same_principle a.principal_type b.principal_type && a.principal_id == b.principal_id

-- The entry of a principal, by a grant on the resource or on a folder above it.
abbrev pub principal_entry : ResourceType → ℕ → Bool → AccessTuple → ResolvedAccess
principal_entry rt rid inherited t = record {
  principal_type = t.principle_type;
  principal_id = t.principle_id;
  resource_type = rt;
  resource_id = rid;
  role = t.role;
  inherited_from = if inherited then some t.resource_id else none;
}

abbrev pub of_type : Option PrincipleType → AccessTuple → Bool
of_type none t = true
of_type (some pt) t = same_principle t.principle_type pt

unfoldable pub get_resource_principals :
    ResourceType → ℕ → Option PrincipleType → Option AccessRole → Session Db (List ResolvedAccess)
unfolding same_principal
get_resource_principals rt rid principal_type min_role = do
  tuples ← gets (λ (db : Db). db.tuples)
  folders ← inheriting_folders rt rid
  let direct =
      offer_tuples same_principal min_role (principal_entry rt rid false)
        (select (λ t. on_resource rt rid t && of_type principal_type t) tuples) []
  pure (
      offer_tuples same_principal min_role (principal_entry rt rid true)
        (select (λ t. on_folders folders t && of_type principal_type t) tuples) direct)

unfoldable pub same_resource : ResolvedAccess → ResolvedAccess → Bool
same_resource a b = same_type a.resource_type b.resource_type && a.resource_id == b.resource_id

abbrev pub direct_entry : PrincipleType → ℕ → AccessTuple → ResolvedAccess
direct_entry pt pid t = record {
  principal_type = pt;
  principal_id = pid;
  resource_type = t.resource_type;
  resource_id = t.resource_id;
  role = t.role;
  inherited_from = none;
}

-- `resource_type is None or resource_type == wanted`
abbrev pub wants : Option ResourceType → ResourceType → Bool
wants none wanted = true
wants (some rt) wanted = same_type rt wanted

-- The loops over what a folder contains.
unfoldable pub offer_contents :
    ResourceType
    → Option AccessRole
    → ResolvedAccess
    → List ℕ
    → List ResolvedAccess
    → List ResolvedAccess
unfolding keep_higher passes same_resource
offer_contents rt min_role access [] results = results
offer_contents rt min_role access (n ∷ contents) results =
    let entry = record access {
      resource_type = rt;
      resource_id = n;
      inherited_from = some access.resource_id;
    } in
    offer_contents rt min_role access contents
      (if passes min_role access.role then keep_higher same_resource entry results else results)

abbrev pub in_folders : List ℕ → Workflow → Bool
in_folders ids w = any (λ n. holds w.parent_folder_id n) ids

workflow_ids : List Workflow → List ℕ
workflow_ids ws = map (λ (w : Workflow). w.id) ws

-- `for folder_access in folder_accesses:`
unfoldable pub expand_folders :
    Option ResourceType
    → Option AccessRole
    → List ResolvedAccess
    → List ResolvedAccess
    → Session Db (List ResolvedAccess)
unfolding workflow_ids
expand_folders resource_type min_role [] results = pure results
expand_folders resource_type min_role (access ∷ accesses) results = do
  descendants ← λ (db : Db). proper_ids (folder_descendants db.folders access.resource_id) db
  workflows ← gets (λ (db : Db). db.workflows)
  let with_folders =
      if wants resource_type folder
      then offer_contents folder min_role access descendants results
      else results
  let with_workflows =
      if wants resource_type workflow
      then offer_contents workflow min_role access
          (workflow_ids (select (in_folders (access.resource_id ∷ descendants)) workflows))
          with_folders
      else with_folders
  expand_folders resource_type min_role accesses with_workflows

abbrev pub of_resource_type : Option ResourceType → AccessTuple → Bool
of_resource_type none t = true
of_resource_type (some rt) t = same_type t.resource_type rt

unfoldable pub get_accessible_resources :
    PrincipleType
    → ℕ
    → Option ResourceType
    → Option AccessRole
    → Bool
    → Session Db (List ResolvedAccess)
get_accessible_resources pt pid resource_type min_role expand_hierarchy = do
  tuples ← gets (λ (db : Db). db.tuples)
  let direct =
      offer_tuples same_resource min_role (direct_entry pt pid)
        (select (λ t. of_principal pt pid t && of_resource_type resource_type t) tuples) []
  if not expand_hierarchy
      then pure direct
      else expand_folders resource_type min_role
          (select (λ (r : ResolvedAccess). same_type r.resource_type folder) direct) direct
