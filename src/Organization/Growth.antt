-- ===== src/Organization/Growth.antt =====
-- What the calls of app/routes/organizations.py that add or delete rows leave of the owners.
use floww_backend.Prelude.{
  ℕ, ◌≡◌, refl, sym, ap, subst, ◌∙◌, Bool, true, false, ◌&&◌, Option, none, some, List, [], ◌∷◌,
  ◌++◌, String, ◌==◌, ==_refl, select, all-append, all_mono, any-append, arith,
}
use floww_backend.Session.{Result, ok, err, scalar_one_or_none}
use floww_backend.Table.{consistent}
use floww_backend.Crud.Helper.{get_response, with_key}
use floww_backend.Organization.Data.{
  OrganizationRole, owner, OrganizationMember, Namespace, clash_member,
}
use floww_backend.Organization.Routes.{
  Db, Organization, User, owner_of, membership, check_single_org_mode, insert_member,
  insert_organization, organizations_helper, on_organizations, create_organization,
  add_organization_member,
}
use floww_backend.Organization.Owners.{owned, Owned}
use floww_backend.Organization.Steps.{membership-row}

-- More members leave an organization its owner.
inserted :
    (m : OrganizationMember) (db after : Db)
    → Owned db
    → insert_member m db ≡ ok (tt, after)
    → (Owned after)
      × (after.members ≡ db.members ++ m ∷ [])
      × (after.organizations ≡ db.organizations)
unfolding insert_member
inserted m db after good e =
    (subst {A = Db} (λ d. Owned d) (ground arith) grown, ground arith, ground arith)
  where
    grown : Owned (record db { members = db.members ++ m ∷ [] })
    grown = record {
      unique = ground arith;
      has_owner =
          all_mono (owned db.members) (owned (db.members ++ m ∷ [])) db.organizations
            (λ o h. ground (arith, any-append (owner_of o.id) db.members (m ∷ []))) good.has_owner;
    }

get-reads :
    (caller organization_id : ℕ) (a : Organization) (db after : Db)
    → on_organizations caller (λ helper. get_response helper organization_id) db ≡ ok (a, after)
    → after ≡ db
unfolding get_response
get-reads caller organization_id a db after e =
    go
      (scalar_one_or_none (
        select
          (λ o.
            (organizations_helper db.members caller).filter o
            && with_key (organizations_helper db.members caller) organization_id o)
          db.organizations))
      refl
  where
    go :
        (x : Result (Option Organization))
        → scalar_one_or_none (
            select
              (λ o.
                (organizations_helper db.members caller).filter o
                && with_key (organizations_helper db.members caller) organization_id o)
              db.organizations)
          ≡ x
        → after ≡ db
    go (ok none) h = absurd (ground arith)
    go (ok (some o)) h = ground arith
    go (err y) h = absurd (ground arith)

pub add-Owned :
    (single : Bool) (new_id caller organization_id user_id : ℕ) (role : OrganizationRole)
    (db after : Db) (a : OrganizationMember)
    → Owned db
    → add_organization_member single new_id caller organization_id user_id role db ≡ ok (a, after)
    → Owned after
unfolding add_organization_member check_single_org_mode
add-Owned single new_id caller organization_id user_id role db after a good e =
    go single (on_organizations caller (λ helper. get_response helper organization_id) db)
      (membership organization_id user_id db) refl refl refl
  where
    new : OrganizationMember
    new = record { id = new_id; organization_id = organization_id; user_id = user_id; role = role }

    go :
        (b : Bool) (x : Result (Organization × Db)) (y : Result (Option OrganizationMember × Db))
        → single ≡ b
        → on_organizations caller (λ helper. get_response helper organization_id) db ≡ x
        → membership organization_id user_id db ≡ y
        → Owned after
    go true x y s h k = absurd (ground arith)
    go false (ok (o, t)) (ok (none, u)) s h k =
        let same = get-reads caller organization_id o db t h in
        let (same', row) = membership-row organization_id user_id none db u k in
        more (scalar_one_or_none (select (λ (v : User). v.id == user_id) db.users))
          (insert_member new db) same same' refl refl
      where
        more :
            (z : Result (Option User)) (w : Result (Unit {0} × Db))
            → t ≡ db
            → u ≡ db
            → scalar_one_or_none (select (λ (v : User). v.id == user_id) db.users) ≡ z
            → insert_member new db ≡ w
            → Owned after
        more (ok (some v)) (ok (n, d)) same same' q r =
            let (owned_after, members, organizations) = inserted new db d good r in
            subst {A = Db} (λ d. Owned d) (ground arith) owned_after
        more (ok (some v)) (err n) same same' q r = absurd (ground arith)
        more (ok none) w same same' q r = absurd (ground arith)
        more (err z) w same same' q r = absurd (ground arith)
    go false (ok (o, t)) (ok (some m, u)) s h k =
        let same = get-reads caller organization_id o db t h in absurd (ground arith)
    go false (ok (o, t)) (err y) s h k =
        let same = get-reads caller organization_id o db t h in absurd (ground arith)
    go false (err x) y s h k = absurd (ground arith)

organization-inserted :
    (o : Organization) (db after : Db)
    → insert_organization o db ≡ ok (tt, after)
    → after ≡ record db { organizations = db.organizations ++ o ∷ [] }
unfolding insert_organization
organization-inserted o db after e = ground arith

member-inserted :
    (m : OrganizationMember) (db after : Db)
    → insert_member m db ≡ ok (tt, after)
    → (consistent clash_member (db.members ++ m ∷ []) ≡ true)
      × (after ≡ record db { members = db.members ++ m ∷ [] })
unfolding insert_member
member-inserted m db after e = (ground arith, ground arith)

-- A new organization of which the new member is the owner.
founded :
    (db : Db) (o : Organization) (m : OrganizationMember) (namespaces : List Namespace)
    → Owned db
    → consistent clash_member (db.members ++ m ∷ []) ≡ true
    → owner_of o.id m ≡ true
    → Owned (record db {
      organizations = db.organizations ++ o ∷ [];
      members = db.members ++ m ∷ [];
      namespaces = namespaces;
    })
founded db o m namespaces good c h = record {
  unique = c;
  has_owner = ground (
    arith,
    all-append (owned (db.members ++ m ∷ [])) db.organizations (o ∷ []),
    any-append (owner_of o.id) db.members (m ∷ []),
    all_mono (owned db.members) (owned (db.members ++ m ∷ [])) db.organizations
        (λ x k. ground (arith, any-append (owner_of x.id) db.members (m ∷ []))) good.has_owner,
  );
}

pub create-Owned :
    (single : Bool) (new_ids : ℕ × ℕ × ℕ) (workos_id : Option String) (user_id : ℕ) (name : String)
    (db after : Db) (a : ℕ)
    → Owned db
    → create_organization single new_ids workos_id user_id name db ≡ ok (a, after)
    → Owned after
unfolding create_organization check_single_org_mode
create-Owned single (org_id, member_id, namespace_id) workos_id user_id name db after a good e =
    go single (insert_organization new db) refl refl
  where
    new : Organization
    new = record { id = org_id; workos_organization_id = workos_id; display_name = name }

    head : OrganizationMember
    head = record { id = member_id; organization_id = org_id; user_id = user_id; role = owner }

    go :
        (b : Bool) (x : Result (Unit {0} × Db))
        → single ≡ b
        → insert_organization new db ≡ x
        → Owned after
    go true x s h = absurd (ground arith)
    go false (ok (u, t)) s h = more (insert_member head t) refl
      where
        more : (y : Result (Unit {0} × Db)) → insert_member head t ≡ y → Owned after
        more (ok (v, d)) k =
            let same = organization-inserted new db t h in
            let (c, same') = member-inserted head t d k in
            subst {A = Db} (λ d. Owned d) (ground arith)
              (founded db new head
                (db.namespaces
                  ++ record {
                    id = namespace_id;
                    user_owner_id = none;
                    organization_owner_id = some org_id;
                  }
                    ∷ [])
                good
                (ap (λ (d : Db). consistent clash_member (d.members ++ head ∷ [])) (sym same) ∙ c)
                (unfold owner_of in ground (arith, ==_refl org_id)))
        more (err y) k = absurd (ground arith)
    go false (err x) s h = absurd (ground arith)
