-- ===== src/Access/Listing.antt =====
-- The listing of a principal's resources, `get_accessible_resources` of
-- app/services/access_service.py.
use floww_backend.Prelude.{
  ℕ, ◌≡◌, refl, ap, ◌∙◌, inl, inr, Bool, true, false, not, ◌&&◌, ◌==◌, Option, none, some, List, [],
  ◌∷◌, all, select, arith, Bool-cases, select_ext, select-select,
}
use floww_backend.Session.{ok}
use floww_backend.Table.{consistent}
use floww_backend.Access.Data.{
  AccessRole, ResourceType, folder, PrincipleType, AccessTuple, Db, ResolvedAccess, same_type,
  clash,
}
use floww_backend.Access.Queries.{
  of_principal, on_resource, of_resource_type, direct_role, raise_all, get_accessible_resources,
  same_resource, direct_entry, passes, keep_higher, offer_tuples, expand_folders,
}
use floww_backend.Access.Roles.{
  role_for, at_least, PicksKey, role_for-offer_tuples, raise_all-passes,
}
use floww_backend.Access.Agreement.{granted_directly, direct_role-raise_all}

-- Entries of other types than a folder only.
abbrev no_folder : List ResolvedAccess → Bool
no_folder results = all (λ (r : ResolvedAccess). not (same_type r.resource_type folder)) results

keep_higher-no_folder :
    (a : ResolvedAccess) (results : List ResolvedAccess)
    → same_type a.resource_type folder ≡ false
    → no_folder results ≡ true
    → no_folder (keep_higher same_resource a results) ≡ true
unfolding keep_higher
keep_higher-no_folder a [] h k = ground arith
keep_higher-no_folder a (r ∷ results) h k = ground (arith, keep_higher-no_folder a results)

offer_tuples-no_folder :
    (pt : PrincipleType) (pid : ℕ) (rt : ResourceType) (m : Option AccessRole)
    (tuples : List AccessTuple) (results : List ResolvedAccess)
    → same_type rt folder ≡ false
    → all (λ (t : AccessTuple). same_type t.resource_type rt) tuples ≡ true
    → no_folder results ≡ true
    → no_folder (offer_tuples same_resource m (direct_entry pt pid) tuples results) ≡ true
unfolding offer_tuples
offer_tuples-no_folder pt pid rt m [] results h a k = k
offer_tuples-no_folder pt pid rt m (t ∷ tuples) results h a k =
    elim (Bool-cases (passes m t.role)) [
      | inl e ↦ rw e (
          offer_tuples-no_folder pt pid rt m tuples _ h (ground arith)
            (keep_higher-no_folder (direct_entry pt pid t) results (ground arith) k))
      | inr e ↦ rw e (offer_tuples-no_folder pt pid rt m tuples results h (ground arith) k)
    ]

typed_tuples :
    (pt : PrincipleType) (pid : ℕ) (rt : ResourceType) (tuples : List AccessTuple)
    → all
        (λ (t : AccessTuple). same_type t.resource_type rt)
        (select (λ t. of_principal pt pid t && of_resource_type (some rt) t) tuples)
      ≡ true
typed_tuples pt pid rt [] = refl
typed_tuples pt pid rt (t ∷ tuples) = ground (arith, typed_tuples pt pid rt tuples)

no_folder-select :
    (results : List ResolvedAccess)
    → no_folder results ≡ true
    → select (λ (r : ResolvedAccess). same_type r.resource_type folder) results ≡ []
no_folder-select [] h = refl
no_folder-select (r ∷ results) h = ground (arith, no_folder-select results)

-- Asked for resources of one type other than folders, get_accessible_resources with the
-- hierarchy expanded gives what it gives without.
pub typed_listing_not_expanded :
    (pt : PrincipleType) (pid : ℕ) (rt : ResourceType) (m : Option AccessRole) (db : Db)
    → same_type rt folder ≡ false
    → get_accessible_resources pt pid (some rt) m true db
      ≡ get_accessible_resources pt pid (some rt) m false db
unfolding get_accessible_resources expand_folders
typed_listing_not_expanded pt pid rt m db h = rw (
    no_folder-select _ (
      offer_tuples-no_folder pt pid rt m
        (select (λ t. of_principal pt pid t && of_resource_type (some rt) t) db.tuples) [] h
        (typed_tuples pt pid rt db.tuples) refl))

unfoldable pub by_resource : ResourceType → ℕ → ResolvedAccess → Bool
by_resource rt rid r = same_type r.resource_type rt && r.resource_id == rid

by_resource-PicksKey : (rt : ResourceType) (rid : ℕ) → PicksKey same_resource (by_resource rt rid)
unfolding by_resource same_resource
by_resource-PicksKey rt rid = record {
  apart = λ a r h. ground arith;
  together = λ a r h k. ground arith;
}

-- The type filter lets the resource's type through.
abbrev pub AdmitsResource : Option ResourceType → ResourceType → Type 0
AdmitsResource none rt = Unit
AdmitsResource (some x) rt = same_type rt x ≡ true

drop_type :
    (f : Option ResourceType) (pt : PrincipleType) (pid : ℕ) (rt : ResourceType) (rid : ℕ)
    (t : AccessTuple)
    → AdmitsResource f rt
    → ((of_principal pt pid t && of_resource_type f t) && on_resource rt rid t)
      ≡ granted_directly pt pid rt rid t
drop_type none pt pid rt rid t h = ground arith
drop_type (some x) pt pid rt rid t h = ground arith

-- On a consistent table of grants, get_accessible_resources without the hierarchy returns and
-- shows each resource that its type filter lets through with the role of the direct grant on it,
-- where that meets the minimum, and otherwise not at all.
pub direct_listing_agrees :
    (pt : PrincipleType) (pid : ℕ) (f : Option ResourceType) (m : Option AccessRole)
    (rt : ResourceType) (rid : ℕ) (db : Db)
    → consistent clash db.tuples ≡ true
    → AdmitsResource f rt
    → (results : List ResolvedAccess) × (role : Option AccessRole) × (get_accessible_resources pt
          pid f m false db
        ≡ ok (results, db))
      × (direct_role pt pid rt rid db ≡ ok (role, db))
      × (role_for (by_resource rt rid) results ≡ at_least m role)
unfolding get_accessible_resources by_resource role_for at_least
direct_listing_agrees pt pid f m rt rid db valid admits = (
  offer_tuples same_resource m (direct_entry pt pid) granted [],
  raise_all none (select (granted_directly pt pid rt rid) db.tuples),
  refl,
  direct_role-raise_all pt pid rt rid db valid,
  role_for-offer_tuples same_resource (by_resource rt rid) (by_resource-PicksKey rt rid) m
        (direct_entry pt pid) (on_resource rt rid) granted [] (λ t. refl) (λ t. refl)
      ∙ raise_all-passes m (on_resource rt rid) granted none
      ∙ ap (λ l. at_least m (raise_all none l))
          (select-select (on_resource rt rid) _ db.tuples
            ∙ select_ext _ (granted_directly pt pid rt rid) db.tuples
                (λ t. drop_type f pt pid rt rid t admits)),
)
  where
    granted : List AccessTuple
    granted = select (λ t. of_principal pt pid t && of_resource_type f t) db.tuples
