-- ===== src/Organization/Tests.antt =====
-- Calls on an organization of an owner and a plain member.
use floww_backend.Prelude.{
  ℕ, ◌≡◌, refl, true, false, none, some, List, [], ◌∷◌, ◌++◌, ◌==◌, all, select,
}
use floww_backend.Session.{ok, err, http_exception, scalar_one_or_none}
use floww_backend.Table.{consistent}
use floww_backend.Crud.Helper.{get_response}
use floww_backend.Organization.Data.{
  OrganizationRole, owner, member, OrganizationMember, clash_member, of_user,
}
use floww_backend.Organization.Routes.{
  Db, Organization, User, human, owner_of, on_organizations, organizations_helper,
  add_organization_member, update_organization_member, remove_organization_member,
}
use floww_backend.Organization.Owners.{owned, Owned}
use floww_backend.Organization.Requests.{
  Request, create, delete, add, change, remove, serve_all, serve_all-Owned,
}
use floww_backend.Organization.Powers.{plain_member_powers}

abbrev head : OrganizationMember
head = record { id = 5; organization_id = 3; user_id = 7; role = owner }

abbrev plain : OrganizationMember
plain = record { id = 6; organization_id = 3; user_id = 8; role = member }

abbrev org : Organization
org = record { id = 3; workos_organization_id = none; display_name = "Floww" }

abbrev db : Db
db = record {
  organizations = org ∷ [];
  members = head ∷ plain ∷ [];
  namespaces = record { id = 1; user_owner_id = none; organization_owner_id = some 3 } ∷ [];
  users =
      record { id = 7; user_type = human }
      ∷ record { id = 8; user_type = human }
      ∷ record { id = 9; user_type = human }
      ∷ [];
}

members_unique : consistent clash_member db.members ≡ true
unfolding consistent clash_member
members_unique = refl

one_owner : all (owned db.members) db.organizations ≡ true
unfolding owner_of
one_owner = refl

abbrev db_owned : Owned db
db_owned = record { unique = members_unique; has_owner = one_owner }

abbrev calls : List (ℕ × Request)
calls =
    (7, change 3 7 member)
    ∷ (8, add 10 3 9 owner)
    ∷ (9, change 3 7 member)
    ∷ (7, remove 3 9)
    ∷ (9, create (4, 11, 2) none "Other")
    ∷ (9, delete 3)
    ∷ []

serve_all-Owned_example : Owned (serve_all false calls db)
serve_all-Owned_example = serve_all-Owned false calls db db_owned

plain_row : scalar_one_or_none (select (of_user 3 8) db.members) ≡ ok (some plain)
unfolding of_user scalar_one_or_none
plain_row = refl

org_seen : on_organizations 8 (λ helper. get_response helper 3) db ≡ ok (org, db)
unfolding get_response organizations_helper of_user scalar_one_or_none
org_seen = refl

absent_row : scalar_one_or_none (select (of_user 3 9) db.members) ≡ ok none
unfolding of_user scalar_one_or_none
absent_row = refl

user_row :
    scalar_one_or_none (select (λ (v : User). v.id == 9) db.users)
    ≡ ok (some (record { id = 9; user_type = human }))
unfolding scalar_one_or_none
user_row = refl

abbrev third : OrganizationMember
third = record { id = 10; organization_id = 3; user_id = 9; role = owner }

third_fits : consistent clash_member (db.members ++ third ∷ []) ≡ true
unfolding consistent clash_member
third_fits = refl

plain_member_powers_example :
    (add_organization_member false 10 8 3 9 owner db
      ≡ ok (third, record db { members = db.members ++ third ∷ [] }))
    × ((other : ℕ) (r : OrganizationRole)
        → update_organization_member false 8 3 other r db
          ≡ err (http_exception 403 "Only organization owners and admins can perform this action"))
    × ((other : ℕ)
        → remove_organization_member false 8 3 other db
          ≡ err (http_exception 403 "Only organization owners and admins can perform this action"))
plain_member_powers_example =
    plain_member_powers 8 3 9 10 owner plain org (record { id = 9; user_type = human }) db plain_row
      refl org_seen absent_row user_row third_fits
