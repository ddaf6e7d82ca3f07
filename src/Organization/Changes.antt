-- ===== src/Organization/Changes.antt =====
-- What a deletion and a change of an organization in app/routes/organizations.py leave of the owners.
use floww_backend.Prelude.{
  ℕ, ◌≡◌, refl, ap, subst, inl, inr, Bool, Bool-cases, true, false, not, Option, none, some, List,
  [], ◌∷◌, String, ◌==◌, select, map, all, any, if◌then◌else◌, arith,
}
use floww_backend.Session.{Result, ok, err, scalar_one_or_none}
use floww_backend.Table.Updates.{consistent-select}
use floww_backend.Crud.Helper.{update_response, with_key}
use floww_backend.Organization.Data.{OrganizationMember, Namespace, clash_member}
use floww_backend.Organization.Routes.{
  Db, Organization, is_owner, owner_of, check_admin_or_owner, check_single_org_mode,
  get_organization_row, organizations_helper, update_organization, delete_organization,
}
use floww_backend.Organization.Owners.{owned, Owned}
use floww_backend.Organization.Steps.{check_admin_or_owner-reads}

kept_members :
    (d : ℕ) (o : Organization) (rows : List OrganizationMember)
    → (o.id == d) ≡ false
    → owned rows o ≡ true
    → owned (select (λ (m : OrganizationMember). not (m.organization_id == d)) rows) o ≡ true
unfolding owner_of
kept_members d o [] n h = absurd (ground arith)
kept_members d o (x ∷ rows) n h = ground (arith, kept_members d o rows n)

kept_organizations :
    (d : ℕ) (members : List OrganizationMember) (rows : List Organization)
    → all (owned members) rows ≡ true
    → all
        (owned (select (λ (m : OrganizationMember). not (m.organization_id == d)) members))
        (select (λ (o : Organization). not (o.id == d)) rows)
      ≡ true
kept_organizations d members [] h = refl
kept_organizations d members (x ∷ rows) h = elim (Bool-cases (x.id == d)) [
  | inl k ↦ ground (arith, kept_organizations d members rows)
  | inr k ↦ ground (arith, kept_organizations d members rows, kept_members d x members k)
]

pub delete-Owned :
    (single : Bool) (caller organization_id : ℕ) (db after : Db)
    → Owned db
    → delete_organization single caller organization_id db ≡ ok (tt, after)
    → Owned after
unfolding delete_organization check_single_org_mode get_organization_row
delete-Owned single caller organization_id db after good e =
    go single (check_admin_or_owner organization_id caller db) refl refl
  where
    go :
        (b : Bool) (x : Result (OrganizationMember × Db))
        → single ≡ b
        → check_admin_or_owner organization_id caller db ≡ x
        → Owned after
    go true x s h = absurd (ground arith)
    go false (ok (c, t)) s h =
        let (same, p, q) = check_admin_or_owner-reads organization_id caller c db t h in
        more (is_owner c.role)
          (scalar_one_or_none
            (select (λ (o : Organization). o.id == organization_id) db.organizations))
          same refl refl
      where
        more :
            (y : Bool) (z : Result (Option Organization))
            → t ≡ db
            → is_owner c.role ≡ y
            → scalar_one_or_none
                (select (λ (o : Organization). o.id == organization_id) db.organizations)
              ≡ z
            → Owned after
        more false z same k q = absurd (ground arith)
        more true (ok none) same k q = absurd (ground arith)
        more true (ok (some o)) same k q = subst {A = Db} (λ d. Owned d) (ground arith) deleted
          where
            deleted : Owned (record db {
              organizations =
                  select (λ (o : Organization). not (o.id == organization_id)) db.organizations;
              members =
                  select
                    (λ (m : OrganizationMember). not (m.organization_id == organization_id))
                    db.members;
              namespaces =
                  select
                    (λ (n : Namespace). not (elim n.organization_owner_id [
                      | none ↦ false
                      | some o ↦ o == organization_id
                    ]))
                    db.namespaces;
            })
            deleted = record {
              unique =
                  consistent-select clash_member
                    (λ (m : OrganizationMember). not (m.organization_id == organization_id))
                    db.members good.unique;
              has_owner =
                  kept_organizations organization_id db.members db.organizations good.has_owner;
            }
        more true (err y) same k q = absurd (ground arith)
    go false (err x) s h = absurd (ground arith)

renamed :
    (members : List OrganizationMember) (f : Organization → Organization) (rows : List Organization)
    → ((o : Organization) → (f o).id ≡ o.id)
    → all (owned members) rows ≡ true
    → all (owned members) (map f rows) ≡ true
renamed members f [] h a = refl
renamed members f (x ∷ rows) h a =
    ground (arith, ap (λ n. any (owner_of n) members) (h x), renamed members f rows h)

pub rename-Owned :
    (single : Bool) (caller organization_id : ℕ) (name : Option String) (db after : Db)
    (a : Organization)
    → Owned db
    → update_organization single caller organization_id name db ≡ ok (a, after)
    → Owned after
unfolding update_organization check_single_org_mode update_response organizations_helper
rename-Owned single caller organization_id name db after a good e =
    go single
      (scalar_one_or_none (
        select (with_key (organizations_helper db.members caller) organization_id)
          db.organizations))
      refl refl
  where
    edit : Organization → Organization
    edit o = elim name [ none ↦ o | some n ↦ record o { display_name = n } ]

    edit_id : (b : Bool) (o : Organization) → (if b then edit o else o).id ≡ o.id
    edit_id b o = ground arith

    go :
        (b : Bool) (x : Result (Option Organization))
        → single ≡ b
        → scalar_one_or_none (
            select
              (with_key (organizations_helper db.members caller) organization_id)
              db.organizations)
          ≡ x
        → Owned after
    go true x s h = absurd (ground arith)
    go false (ok none) s h = absurd (ground arith)
    go false (ok (some o)) s h = subst {A = Db} (λ d. Owned d) (ground arith) (changed_row)
      where
        changed_row : Owned (record db {
          organizations =
              map
                (λ o.
                  if with_key (organizations_helper db.members caller) organization_id o
                  then edit o
                  else o)
                db.organizations;
        })
        changed_row = record {
          unique = good.unique;
          has_owner =
              renamed db.members _ db.organizations
                (λ o.
                  edit_id (with_key (organizations_helper db.members caller) organization_id o) o)
                good.has_owner;
        }
    go false (err y) s h = absurd (ground arith)
