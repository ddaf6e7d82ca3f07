-- ===== src/Organization/Powers.antt =====
-- Who may change the members of an organization in app/routes/organizations.py.
use floww_backend.Prelude.{
  ℕ, ◌≡◌, refl, true, false, ◌||◌, Option, none, some, [], ◌∷◌, ◌++◌, ◌==◌, select, arith,
}
use floww_backend.Session.{ok, err, http_exception, scalar_one_or_none}
use floww_backend.Table.{consistent}
use floww_backend.Crud.Helper.{get_response}
use floww_backend.Organization.Data.{OrganizationRole, OrganizationMember, clash_member, of_user}
use floww_backend.Organization.Routes.{
  Db, Organization, User, is_owner, is_admin, membership, check_admin_or_owner,
  check_single_org_mode, insert_member, on_organizations, add_organization_member,
  update_organization_member, remove_organization_member,
}

refused_check :
    (caller organization_id : ℕ) (m : OrganizationMember) (db : Db)
    → scalar_one_or_none (select (of_user organization_id caller) db.members) ≡ ok (some m)
    → (is_owner m.role || is_admin m.role) ≡ false
    → check_admin_or_owner organization_id caller db
      ≡ err (http_exception 403 "Only organization owners and admins can perform this action")
unfolding check_admin_or_owner membership
refused_check caller organization_id m db row plain = ground arith

membership_run :
    (organization_id user_id : ℕ) (a : Option OrganizationMember) (db : Db)
    → scalar_one_or_none (select (of_user organization_id user_id) db.members) ≡ ok a
    → membership organization_id user_id db ≡ ok (a, db)
unfolding membership
membership_run organization_id user_id a db e = rw e refl

insert_member_run :
    (m : OrganizationMember) (db : Db)
    → consistent clash_member (db.members ++ m ∷ []) ≡ true
    → insert_member m db ≡ ok (tt, record db { members = db.members ++ m ∷ [] })
unfolding insert_member
insert_member_run m db c = rw c refl

-- Outside single-organization mode, a member who is neither owner nor administrator is refused
-- with a 403 when changing or removing any member, but adds any known user who is not a member
-- yet, under a fresh identifier, with any role, that of an owner included.
pub plain_member_powers :
    (caller organization_id user_id new_id : ℕ) (role : OrganizationRole) (m : OrganizationMember)
    (o : Organization) (u : User) (db : Db)
    → scalar_one_or_none (select (of_user organization_id caller) db.members) ≡ ok (some m)
    → (is_owner m.role || is_admin m.role) ≡ false
    → on_organizations caller (λ helper. get_response helper organization_id) db ≡ ok (o, db)
    → scalar_one_or_none (select (of_user organization_id user_id) db.members) ≡ ok none
    → scalar_one_or_none (select (λ (v : User). v.id == user_id) db.users) ≡ ok (some u)
    → consistent clash_member (
        db.members
        ++ record { id = new_id; organization_id = organization_id; user_id = user_id; role = role }
          ∷ [])
      ≡ true
    → (add_organization_member false new_id caller organization_id user_id role db
        ≡ ok (
          record { id = new_id; organization_id = organization_id; user_id = user_id; role = role },
          record db {
            members =
                db.members
                ++ record {
                  id = new_id;
                  organization_id = organization_id;
                  user_id = user_id;
                  role = role;
                }
                  ∷ [];
          },
        ))
      × ((other : ℕ) (r : OrganizationRole)
          → update_organization_member false caller organization_id other r db
            ≡ err
                (http_exception 403 "Only organization owners and admins can perform this action"))
      × ((other : ℕ)
          → remove_organization_member false caller organization_id other db
            ≡ err
                (http_exception 403 "Only organization owners and admins can perform this action"))
unfolding add_organization_member update_organization_member remove_organization_member
    check_single_org_mode
plain_member_powers caller organization_id user_id new_id role m o u db row plain seen absent known
      fits =
    let refused = refused_check caller organization_id m db row plain in
    (
      ground (
        arith,
        membership_run organization_id user_id none db absent,
        insert_member_run
            (record {
              id = new_id;
              organization_id = organization_id;
              user_id = user_id;
              role = role;
            })
            db fits,
      ),
      (λ other r. ground arith),
      (λ other. ground arith),
    )
