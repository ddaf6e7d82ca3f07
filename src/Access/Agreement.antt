-- ===== src/Access/Agreement.antt =====
-- The effective role of a principal in app/services/access_service.py, and the listing of the
-- principals of a resource.
use floww_backend.Prelude.{
  ℕ, ◌≡◌, refl, sym, ap, ◌∙◌, Bool, true, false, ◌&&◌, ◌||◌, ◌==◌, Option, none, some, List, [],
  ◌∷◌, all, find, select, arith, if◌then◌else◌, ◌++◌, select_ext, select-select, all-either,
  all-append,
}
use floww_backend.Session.{ok, ◌>>=◌, scalar_one_or_none}
use floww_backend.Table.{consistent}
use floww_backend.Table.Laws.{PicksUnique, scalar_one_or_none-select}
use floww_backend.Access.Data.{
  AccessRole, ResourceType, PrincipleType, AccessTuple, Db, ResolvedAccess, same_principle, clash,
}
use floww_backend.Access.Queries.{
  role_of_row, direct_role, of_principal, on_resource, on_folders, of_type, inheriting_folders,
  raise_all, raise_to, get_resolved_access, get_resource_principals, same_principal,
  principal_entry, passes, offer_tuples,
}
use floww_backend.Access.Roles.{
  role_for, at_least, PicksKey, role_for-offer_tuples, raise_all-passes, covers, attained,
  attained-either, raise_all-append, raise_all-covers, raise_all-attained,
}

-- A grant to the principal that counts for the resource: on it, or on a folder that it inherits from.
abbrev pub granted_directly : PrincipleType → ℕ → ResourceType → ℕ → AccessTuple → Bool
granted_directly pt pid rt rid t = of_principal pt pid t && on_resource rt rid t

abbrev pub granted_above : PrincipleType → ℕ → List ℕ → AccessTuple → Bool
granted_above pt pid ids t = of_principal pt pid t && on_folders ids t

granted_directly-PicksUnique :
    (pt : PrincipleType) (pid : ℕ) (rt : ResourceType) (rid : ℕ)
    → PicksUnique clash (granted_directly pt pid rt rid)
unfolding clash
granted_directly-PicksUnique pt pid rt rid x y h k = ground arith

-- The highest role by the whole list of grants.
abbrev pub highest : PrincipleType → ℕ → ResourceType → ℕ → List ℕ → Db → Option AccessRole
highest pt pid rt rid ids db =
    raise_all (raise_all none (select (granted_directly pt pid rt rid) db.tuples))
      (select (granted_above pt pid ids) db.tuples)

one-raise_all :
    (rows : List AccessTuple) (o : Option AccessTuple)
    → scalar_one_or_none rows ≡ ok o
    → role_of_row o ≡ raise_all none rows
unfolding scalar_one_or_none raise_all raise_to role_of_row
one-raise_all [] o h = ground arith
one-raise_all (x ∷ []) o h = ground arith
one-raise_all (x ∷ y ∷ rows) o h = absurd (ground arith)

pub direct_role-raise_all :
    (pt : PrincipleType) (pid : ℕ) (rt : ResourceType) (rid : ℕ) (db : Db)
    → consistent clash db.tuples ≡ true
    → direct_role pt pid rt rid db
      ≡ ok (raise_all none (select (granted_directly pt pid rt rid) db.tuples), db)
unfolding direct_role
direct_role-raise_all pt pid rt rid db valid =
    let q =
      scalar_one_or_none-select clash (granted_directly pt pid rt rid)
        (granted_directly-PicksUnique pt pid rt rid) db.tuples valid in
    rw q (
      ap (λ x. ok (x, db))
        (one-raise_all (select (granted_directly pt pid rt rid) db.tuples)
          (find (granted_directly pt pid rt rid) db.tuples) q))

unfoldable pub by_principal : PrincipleType → ℕ → ResolvedAccess → Bool
by_principal pt pid r = same_principle r.principal_type pt && r.principal_id == pid

by_principal-PicksKey :
    (pt : PrincipleType) (pid : ℕ) → PicksKey same_principal (by_principal pt pid)
unfolding by_principal same_principal
by_principal-PicksKey pt pid = record {
  apart = λ a r h. ground arith;
  together = λ a r h k. ground arith;
}

-- The filter lets the principal's type through.
abbrev pub Admits : Option PrincipleType → PrincipleType → Type 0
Admits none pt = Unit
Admits (some x) pt = same_principle pt x ≡ true

drop_filter :
    (f : Option PrincipleType) (pt : PrincipleType) (pid : ℕ) (q : AccessTuple → Bool)
    (t : AccessTuple)
    → Admits f pt
    → ((q t && of_type f t) && of_principal pt pid t) ≡ (of_principal pt pid t && q t)
drop_filter none pt pid q t h = ground arith
drop_filter (some x) pt pid q t h = ground arith

narrowed :
    (pt : PrincipleType) (pid : ℕ) (f : Option PrincipleType) (q : AccessTuple → Bool) (db : Db)
    → Admits f pt
    → select (of_principal pt pid) (select (λ t. q t && of_type f t) db.tuples)
      ≡ select (λ t. of_principal pt pid t && q t) db.tuples
narrowed pt pid f q db admits =
    select-select (of_principal pt pid) (λ t. q t && of_type f t) db.tuples
    ∙ select_ext _ _ db.tuples (λ t. drop_filter f pt pid q t admits)

module _ (pt : PrincipleType) (pid : ℕ) (rt : ResourceType) (rid : ℕ) (ids : List ℕ) (db : Db)
    (valid : consistent clash db.tuples ≡ true)
    (inherits : inheriting_folders rt rid db ≡ ok (ids, db)) where
  resolved_run : get_resolved_access pt pid rt rid db ≡ ok (highest pt pid rt rid ids db, db)
  unfolding get_resolved_access
  resolved_run =
      rw (direct_role-raise_all pt pid rt rid db valid, ◌>>=◌) (rw (inherits, ◌>>=◌) refl)

  -- On a consistent table of grants and given the folders that the resource inherits from,
  -- get_resolved_access returns; its role is at least that of every grant to the principal on
  -- the resource or on one of those folders, and is the role of such a grant, or none if there
  -- is none.
  pub resolved_is_highest :
      (role : Option AccessRole) × (get_resolved_access pt pid rt rid db ≡ ok (role, db))
      × (all
            (λ t.
              if granted_directly pt pid rt rid t || granted_above pt pid ids t
              then covers role t.role
              else true)
            db.tuples
          ≡ true)
      × (attained role
            (select (λ t. granted_directly pt pid rt rid t || granted_above pt pid ids t) db.tuples)
          ≡ true)
  resolved_is_highest = (
    highest pt pid rt rid ids db,
    resolved_run,
    sym (
          all-either (granted_directly pt pid rt rid) (granted_above pt pid ids)
            (λ t. covers (highest pt pid rt rid ids db) t.role) db.tuples)
        ∙ sym (all-append (λ t. covers (highest pt pid rt rid ids db) t.role) direct inherited)
        ∙ rw (← raise_all-append) (raise_all-covers none (direct ++ inherited)),
    sym (
          attained-either (highest pt pid rt rid ids db) (granted_directly pt pid rt rid)
            (granted_above pt pid ids) db.tuples)
        ∙ rw (← raise_all-append) (raise_all-attained (direct ++ inherited)),
  )
    where
      direct : List AccessTuple
      direct = select (granted_directly pt pid rt rid) db.tuples

      inherited : List AccessTuple
      inherited = select (granted_above pt pid ids) db.tuples

  direct_entries :
      (f : Option PrincipleType) (m : Option AccessRole)
      → Admits f pt
      → role_for (by_principal pt pid) (
          offer_tuples same_principal m
            (principal_entry rt rid false)
            (select (λ t. on_resource rt rid t && of_type f t) db.tuples)
            [])
        ≡ at_least m (raise_all none (select (granted_directly pt pid rt rid) db.tuples))
  unfolding by_principal role_for at_least
  direct_entries f m admits =
      role_for-offer_tuples same_principal (by_principal pt pid) (by_principal-PicksKey pt pid) m
        (principal_entry rt rid false) (of_principal pt pid) _ [] (λ t. refl) (λ t. refl)
      ∙ raise_all-passes m (of_principal pt pid)
          (select (λ t. on_resource rt rid t && of_type f t) db.tuples) none
      ∙ ap (λ l. at_least m (raise_all none l)) (narrowed pt pid f (on_resource rt rid) db admits)

  -- On a consistent table of grants and given the folders that the resource inherits from,
  -- get_resource_principals returns and shows each principal that its type filter lets through
  -- with the very role that get_resolved_access finds for it, if that meets the minimum, and
  -- otherwise not at all.
  pub principals_agree :
      (f : Option PrincipleType) (m : Option AccessRole)
      → Admits f pt
      → (results : List ResolvedAccess) × (role : Option AccessRole) × (get_resource_principals rt
            rid f m db
          ≡ ok (results, db))
        × (get_resolved_access pt pid rt rid db ≡ ok (role, db))
        × (role_for (by_principal pt pid) results ≡ at_least m role)
  unfolding get_resource_principals by_principal
  principals_agree f m admits = (
    listing,
    highest pt pid rt rid ids db,
    rw (inherits, ◌>>=◌) refl,
    resolved_run,
    role_for-offer_tuples same_principal (by_principal pt pid) (by_principal-PicksKey pt pid) m
          (principal_entry rt rid true) (of_principal pt pid) above direct (λ t. refl) (λ t. refl)
        ∙ ap (λ h. raise_all h (select (λ t. passes m t.role && of_principal pt pid t) above))
            (direct_entries f m admits)
        ∙ raise_all-passes m (of_principal pt pid) above
            (raise_all none (select (granted_directly pt pid rt rid) db.tuples))
        ∙ ap
            (λ l.
              at_least m
                (raise_all (raise_all none (select (granted_directly pt pid rt rid) db.tuples)) l))
            (narrowed pt pid f (on_folders ids) db admits),
  )
    where
      above : List AccessTuple
      above = select (λ t. on_folders ids t && of_type f t) db.tuples

      direct : List ResolvedAccess
      direct =
          offer_tuples same_principal m (principal_entry rt rid false)
            (select (λ t. on_resource rt rid t && of_type f t) db.tuples) []

      listing : List ResolvedAccess
      listing = offer_tuples same_principal m (principal_entry rt rid true) above direct
