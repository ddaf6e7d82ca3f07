-- ===== src/Organization/Routes.antt =====
-- The endpoints of app/routes/organizations.py on the rows of `Organization`, `OrganizationMember`,
-- `Namespace` and `User`. WorkOS is a parameter: what its call gave.
use floww_backend.Prelude.{
  ℕ, Bool, true, false, not, ◌&&◌, ◌||◌, Option, none, some, List, [], ◌∷◌, ◌++◌, String, same_text,
  leb, ◌==◌, length, any, select, is_some, if◌then◌else◌,
}
use floww_backend.Session.{
  Session, ok, err, pure, raise, raise_if, gets, lift, http_exception, integrity_error,
  scalar_one_or_none, ◌>>=◌, ◌>>◌,
}
use floww_backend.Table.{consistent, put}
use floww_backend.Crud.Helper.{CrudHelper, list_response, get_response, update_response}
use floww_backend.Organization.Data.{
  OrganizationRole, owner, admin, OrganizationMember, Namespace, clash_member, of_user,
}

pub record Organization : Type 0 where
  pub id : ℕ
  pub workos_organization_id : Option String
  pub display_name : String

pub data UserType : Type 0 where
  human service_account : UserType

pub record User : Type 0 where
  pub id : ℕ
  pub user_type : UserType

pub record Db : Type 0 where
  pub organizations : List Organization
  pub members : List OrganizationMember
  pub namespaces : List Namespace
  pub users : List User

-- The primary key and `workos_organization_id`, of which NULL is never taken twice.
unfoldable pub clash_organization : Organization → Organization → Bool
clash_organization a b = a.id == b.id || same_text a.workos_organization_id b.workos_organization_id

unfoldable pub same_member : OrganizationMember → OrganizationMember → Bool
same_member a b = a.id == b.id

abbrev pub is_owner : OrganizationRole → Bool
is_owner owner = true
is_owner _ = false

abbrev pub is_admin : OrganizationRole → Bool
is_admin admin = true
is_admin _ = false

-- The owners of an organization.
unfoldable pub owner_of : ℕ → OrganizationMember → Bool
owner_of organization_id m = m.organization_id == organization_id && is_owner m.role

-- `UserAccessibleQuery(user_id).organizations()`, and `helper_factory`.
unfoldable pub organizations_helper : List OrganizationMember → ℕ → CrudHelper Organization
organizations_helper members user_id = record {
  filter = λ (o : Organization). any (of_user o.id user_id) members;
  id_of = λ (o : Organization). o.id;
  not_found = "Organization not found";
}

-- A call of the helper.
abbrev pub on_organizations :
    {A : Type 0} → ℕ → (CrudHelper Organization → Session (List Organization) A) → Session Db A
on_organizations user_id m db =
    elim (m (organizations_helper db.members user_id) db.organizations) [
      | ok (a, organizations) ↦ ok (a, record db { organizations = organizations })
      | err e ↦ err e
    ]

unfoldable pub membership : ℕ → ℕ → Session Db (Option OrganizationMember)
unfolding of_user
membership organization_id user_id db =
    lift (scalar_one_or_none (select (of_user organization_id user_id) db.members)) db

unfoldable pub check_admin_or_owner : ℕ → ℕ → Session Db OrganizationMember
unfolding membership
check_admin_or_owner organization_id user_id = do
  found ← membership organization_id user_id
  elim found [
    | none ↦ raise (http_exception 404 "Organization not found")
    | some m ↦
        if not (is_owner m.role || is_admin m.role)
        then raise
            (http_exception 403 "Only organization owners and admins can perform this action")
        else pure m
  ]

unfoldable pub insert_member : OrganizationMember → Session Db Unit
insert_member m db =
    let rows = db.members ++ m ∷ [] in
    if consistent clash_member rows
    then ok (tt, record db { members = rows })
    else err integrity_error

unfoldable pub insert_organization : Organization → Session Db Unit
insert_organization o db =
    let rows = db.organizations ++ o ∷ [] in
    if consistent clash_organization rows
    then ok (tt, record db { organizations = rows })
    else err integrity_error

unfoldable pub get_organization_row : ℕ → Session Db Organization
get_organization_row organization_id = do
  found ← λ db.
      lift
        (scalar_one_or_none
          (select (λ (o : Organization). o.id == organization_id) db.organizations))
        db
  elim found [ none ↦ raise (http_exception 404 "Organization not found") | some o ↦ pure o ]

-- `check_single_org_mode`; the setting SINGLE_ORG_MODE is an argument.
unfoldable pub check_single_org_mode : Bool → Session Db Unit
check_single_org_mode single =
    raise_if single
      (http_exception 403 "Organization management is disabled in single-organization mode")

module _ (single_org_mode : Bool) where
  -- `new_ids` are the identifiers of the organization, the membership and the namespace; `workos_id`
  -- is that of the WorkOS organization, where one could be created.
  unfoldable pub create_organization : ℕ × ℕ × ℕ → Option String → ℕ → String → Session Db ℕ
  unfolding check_single_org_mode insert_organization insert_member
  create_organization (org_id, member_id, namespace_id) workos_id user_id display_name = do
    check_single_org_mode single_org_mode
    insert_organization
        (record { id = org_id; workos_organization_id = workos_id; display_name = display_name })
    insert_member
        (record { id = member_id; organization_id = org_id; user_id = user_id; role = owner })
    λ db. ok (
      org_id,
      record db {
        namespaces =
            db.namespaces
            ++ record {
              id = namespace_id;
              user_owner_id = none;
              organization_owner_id = some org_id;
            }
              ∷ [];
      },
    )

  unfoldable pub update_organization : ℕ → ℕ → Option String → Session Db Organization
  unfolding check_single_org_mode
  update_organization user_id organization_id display_name = do
    check_single_org_mode single_org_mode
    on_organizations user_id (λ helper.
        update_response helper organization_id (λ (o : Organization). elim display_name [
          | none ↦ o
          | some name ↦ record o { display_name = name }
        ]))

  -- The delete cascades to the members and the namespaces.
  unfoldable pub delete_organization : ℕ → ℕ → Session Db Unit
  unfolding check_single_org_mode check_admin_or_owner get_organization_row
  delete_organization user_id organization_id = do
    check_single_org_mode single_org_mode
    m ← check_admin_or_owner organization_id user_id
    raise_if (not (is_owner m.role))
        (http_exception 403 "Only organization owners can delete the organization")
    org ← get_organization_row organization_id
    λ db. ok (
      tt,
      record db {
        organizations =
            select (λ (o : Organization). not (o.id == organization_id)) db.organizations;
        members =
            select (λ (m : OrganizationMember). not (m.organization_id == organization_id))
              db.members;
        namespaces =
            select
              (λ (n : Namespace).
                not (elim n.organization_owner_id [ none ↦ false | some o ↦ o == organization_id ]))
              db.namespaces;
      },
    )

  unfoldable pub add_organization_member :
      ℕ → ℕ → ℕ → ℕ → OrganizationRole → Session Db OrganizationMember
  unfolding check_single_org_mode membership insert_member
  add_organization_member new_id caller organization_id user_id role = do
    check_single_org_mode single_org_mode
    on_organizations caller (λ helper. get_response helper organization_id)
    existing ← membership organization_id user_id
    raise_if (is_some existing) (http_exception 400 "User is already a member of this organization")
    user ← λ db. lift (scalar_one_or_none (select (λ (u : User). u.id == user_id) db.users)) db
    raise_if (not (is_some user)) (http_exception 404 "User not found")
    insert_member
        (record { id = new_id; organization_id = organization_id; user_id = user_id; role = role })
    pure (record { id = new_id; organization_id = organization_id; user_id = user_id; role = role })

  unfoldable pub update_organization_member :
      ℕ → ℕ → ℕ → OrganizationRole → Session Db OrganizationMember
  unfolding check_single_org_mode check_admin_or_owner membership
  update_organization_member caller organization_id user_id role = do
    check_single_org_mode single_org_mode
    check_admin_or_owner organization_id caller
    found ← membership organization_id user_id
    elim found [
      | none ↦ raise (http_exception 404 "Member not found")
      | some m ↦ do
        owners ← gets (λ (db : Db). length (select (owner_of organization_id) db.members))
        raise_if (is_owner m.role && not (is_owner role) && leb owners 1) (
            http_exception 400
              "Cannot demote the last owner. Promote another member to owner first.")
        λ db. ok (
          record m { role = role },
          record db { members = put same_member (record m { role = role }) db.members },
        )
    ]

  unfoldable pub remove_organization_member : ℕ → ℕ → ℕ → Session Db Unit
  unfolding check_single_org_mode check_admin_or_owner membership
  remove_organization_member caller organization_id user_id = do
    check_single_org_mode single_org_mode
    check_admin_or_owner organization_id caller
    found ← membership organization_id user_id
    elim found [
      | none ↦ raise (http_exception 404 "Member not found")
      | some m ↦ do
        owners ← gets (λ (db : Db). length (select (owner_of organization_id) db.members))
        raise_if (is_owner m.role && leb owners 1)
            (http_exception 400 "Cannot remove the last owner from the organization")
        λ db. ok (tt, record db { members = select (λ x. not (same_member m x)) db.members })
    ]

-- The members of an organization that are people.
unfoldable pub list_organization_members : ℕ → ℕ → Session Db (List OrganizationMember)
list_organization_members caller organization_id = do
  on_organizations caller (λ helper. get_response helper organization_id)
  λ db. ok (
    select
        (λ (m : OrganizationMember).
          m.organization_id == organization_id
          && any
              (λ (u : User).
                u.id == m.user_id && (elim u.user_type [ human ↦ true | service_account ↦ false ]))
              db.users)
        db.members,
    db,
  )

unfoldable pub list_organizations : ℕ → Session Db (List Organization)
list_organizations user_id = on_organizations user_id (λ helper. list_response helper (λ o. true))
