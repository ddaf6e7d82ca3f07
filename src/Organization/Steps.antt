-- ===== src/Organization/Steps.antt =====
-- What the calls of app/routes/organizations.py that change members leave of the owners.
use floww_backend.Prelude.{
  ℕ, ◌≡◌, refl, ap, subst, inl, inr, Bool, Bool-cases, true, false, not, ◌&&◌, ◌||◌, Option, none,
  some, List, leb, length, select, find, all_mono, arith,
}
use floww_backend.Session.{Result, ok, err, scalar_one_or_none}
use floww_backend.Table.{consistent, put}
use floww_backend.Table.Laws.{consistent-put}
use floww_backend.Table.Updates.{one-found, found-fits, fits_mono, consistent-select}
use floww_backend.Table.Rows.{one-passes}
use floww_backend.Organization.Data.{OrganizationRole, OrganizationMember, clash_member, of_user}
use floww_backend.Organization.Routes.{
  Db, Organization, same_member, is_owner, is_admin, owner_of, membership, check_admin_or_owner,
  check_single_org_mode, update_organization_member, remove_organization_member,
}
use floww_backend.Organization.Owners.{
  owned, Owned, somebody_left, any-others_put, any-others_left, any-put_self, clash_member_comm,
  same_member-PicksUnique,
}

pub membership-row :
    (organization_id user_id : ℕ) (a : Option OrganizationMember) (db after : Db)
    → membership organization_id user_id db ≡ ok (a, after)
    → (after ≡ db)
      × (scalar_one_or_none (select (of_user organization_id user_id) db.members) ≡ ok a)
unfolding membership
membership-row organization_id user_id a db after e =
    go (scalar_one_or_none (select (of_user organization_id user_id) db.members)) refl
  where
    go :
        (x : Result (Option OrganizationMember))
        → scalar_one_or_none (select (of_user organization_id user_id) db.members) ≡ x
        → (after ≡ db)
          × (scalar_one_or_none (select (of_user organization_id user_id) db.members) ≡ ok a)
    go (ok b) h = (ground arith, ground arith)
    go (err y) h = absurd (ground arith)

-- The caller is an owner or an administrator.
pub check_admin_or_owner-reads :
    (organization_id user_id : ℕ) (a : OrganizationMember) (db after : Db)
    → check_admin_or_owner organization_id user_id db ≡ ok (a, after)
    → (after ≡ db)
      × (of_user organization_id user_id a ≡ true)
      × ((is_owner a.role || is_admin a.role) ≡ true)
unfolding check_admin_or_owner
check_admin_or_owner-reads organization_id user_id a db after e =
    go (membership organization_id user_id db) refl
  where
    go :
        (x : Result (Option OrganizationMember × Db))
        → membership organization_id user_id db ≡ x
        → (after ≡ db)
          × (of_user organization_id user_id a ≡ true)
          × ((is_owner a.role || is_admin a.role) ≡ true)
    go (ok (none, s)) h = absurd (ground arith)
    go (ok (some m, s)) h =
        let (same, row) = membership-row organization_id user_id (some m) db s h in
        (
          ground arith,
          ground (arith, one-passes (of_user organization_id user_id) db.members m row),
          ground arith,
        )
    go (err y) h = absurd (ground arith)

same_member_self : (m : OrganizationMember) → same_member m m ≡ true
unfolding same_member
same_member_self m = ground arith

member-found :
    (organization_id user_id : ℕ) (m : OrganizationMember) (db : Db)
    → consistent clash_member db.members ≡ true
    → scalar_one_or_none (select (of_user organization_id user_id) db.members) ≡ ok (some m)
    → (find (same_member m) db.members ≡ some m) × (m.organization_id ≡ organization_id)
unfolding of_user
member-found organization_id user_id m db c e = (
  one-found clash_member clash_member_comm (of_user organization_id user_id) (same_member m) m
      db.members (same_member-PicksUnique m) c e (same_member_self m),
  ground (arith, one-passes (of_user organization_id user_id) db.members m e),
)

put_unique :
    (m new : OrganizationMember) (rows : List OrganizationMember)
    → consistent clash_member rows ≡ true
    → find (same_member m) rows ≡ some m
    → new.id ≡ m.id
    → new.organization_id ≡ m.organization_id
    → new.user_id ≡ m.user_id
    → consistent clash_member (put same_member new rows) ≡ true
put_unique m new rows c f i j k =
    consistent-put clash_member same_member clash_member_comm
      (λ r x y. same_member-PicksUnique r x y) new rows c
      (fits_mono clash_member same_member new m rows (λ x h. unfold same_member in ground arith)
        (λ x h. unfold clash_member in ground arith)
        (found-fits clash_member same_member clash_member_comm same_member_self (same_member m) m
          rows c f))

owner_of-owner :
    (n : ℕ) (m : OrganizationMember)
    → owner_of n m ≡ true
    → (m.organization_id ≡ n) × (is_owner m.role ≡ true)
unfolding owner_of
owner_of-owner n m h = (ground arith, ground arith)

owner_of-not_owner :
    (n : ℕ) (m : OrganizationMember)
    → owner_of n m ≡ false
    → m.organization_id ≡ n
    → is_owner m.role ≡ false
unfolding owner_of
owner_of-not_owner n m h e = ground arith

module _ (db : Db) (good : Owned db) (m : OrganizationMember)
    (found : find (same_member m) db.members ≡ some m) where
  changed :
      (role : OrganizationRole)
      → (is_owner m.role
          && not (is_owner role)
          && leb (length (select (owner_of m.organization_id) db.members)) 1)
        ≡ false
      → Owned (record db { members = put same_member (record m { role = role }) db.members })
  changed role c = record {
    unique = put_unique m (record m { role = role }) db.members good.unique found refl refl refl;
    has_owner =
        all_mono (owned db.members) (owned (put same_member (record m { role = role }) db.members))
          db.organizations kept good.has_owner;
  }
    where
      kept :
          (o : Organization)
          → owned db.members o ≡ true
          → owned (put same_member (record m { role = role }) db.members) o ≡ true
      kept o h = elim (Bool-cases (owner_of o.id (record m { role = role }))) [
        | inl k ↦
            any-put_self (owner_of o.id) (record m { role = role }) m db.members
              (unfold same_member in found) k
        | inr k ↦
            unfold same_member in
            any-others_put (owner_of o.id) (record m { role = role }) db.members
              (unfold same_member in somebody_left db good m found o h (demoted o k))
      ]
        where
          demoted :
              (o : Organization)
              → owner_of o.id (record m { role = role }) ≡ false
              → (owner_of o.id m && leb (length (select (owner_of o.id) db.members)) 1) ≡ false
          demoted o k = elim (Bool-cases (owner_of o.id m)) [
            | inl h ↦
                let (org, own) = owner_of-owner o.id m h in
                ground (
                  arith,
                  owner_of-not_owner o.id (record m { role = role }) k org,
                  ap (λ n. leb (length (select (owner_of n) db.members)) 1) org,
                )
            | inr h ↦ rw h refl
          ]

  removed :
      (is_owner m.role && leb (length (select (owner_of m.organization_id) db.members)) 1) ≡ false
      → Owned (record db { members = select (λ x. not (same_member m x)) db.members })
  removed c = record {
    unique = consistent-select clash_member (λ x. not (same_member m x)) db.members good.unique;
    has_owner =
        all_mono (owned db.members) (owned (select (λ x. not (same_member m x)) db.members))
          db.organizations
          (λ o h.
            any-others_left (owner_of o.id) m db.members
              (somebody_left db good m found o h (last o)))
          good.has_owner;
  }
    where
      last :
          (o : Organization)
          → (owner_of o.id m && leb (length (select (owner_of o.id) db.members)) 1) ≡ false
      last o = elim (Bool-cases (owner_of o.id m)) [
        | inl h ↦
            let (org, own) = owner_of-owner o.id m h in
            ground (arith, ap (λ n. leb (length (select (owner_of n) db.members)) 1) org)
        | inr h ↦ rw h refl
      ]

pub change-Owned :
    (single : Bool) (caller organization_id user_id : ℕ) (role : OrganizationRole) (db after : Db)
    (a : OrganizationMember)
    → Owned db
    → update_organization_member single caller organization_id user_id role db ≡ ok (a, after)
    → Owned after
unfolding update_organization_member check_single_org_mode
change-Owned single caller organization_id user_id role db after a good e =
    go single (check_admin_or_owner organization_id caller db)
      (membership organization_id user_id db) refl refl refl
  where
    go :
        (b : Bool) (x : Result (OrganizationMember × Db))
        (y : Result (Option OrganizationMember × Db))
        → single ≡ b
        → check_admin_or_owner organization_id caller db ≡ x
        → membership organization_id user_id db ≡ y
        → Owned after
    go true x y s h k = absurd (ground arith)
    go false (ok (c, t)) (ok (some m, u)) s h k =
        let (same, p, q) = check_admin_or_owner-reads organization_id caller c db t h in
        let (same', row) = membership-row organization_id user_id (some m) db u k in
        let (found, org) = member-found organization_id user_id m db good.unique row in
        subst {A = Db} (λ d. Owned d) (ground arith) (changed db good m found role (ground arith))
    go false (ok (c, t)) (ok (none, u)) s h k =
        let (same, p, q) = check_admin_or_owner-reads organization_id caller c db t h in
        absurd (ground arith)
    go false (ok (c, t)) (err y) s h k =
        let (same, p, q) = check_admin_or_owner-reads organization_id caller c db t h in
        absurd (ground arith)
    go false (err x) y s h k = absurd (ground arith)

pub remove-Owned :
    (single : Bool) (caller organization_id user_id : ℕ) (db after : Db)
    → Owned db
    → remove_organization_member single caller organization_id user_id db ≡ ok (tt, after)
    → Owned after
unfolding remove_organization_member check_single_org_mode
remove-Owned single caller organization_id user_id db after good e =
    go single (check_admin_or_owner organization_id caller db)
      (membership organization_id user_id db) refl refl refl
  where
    go :
        (b : Bool) (x : Result (OrganizationMember × Db))
        (y : Result (Option OrganizationMember × Db))
        → single ≡ b
        → check_admin_or_owner organization_id caller db ≡ x
        → membership organization_id user_id db ≡ y
        → Owned after
    go true x y s h k = absurd (ground arith)
    go false (ok (c, t)) (ok (some m, u)) s h k =
        let (same, p, q) = check_admin_or_owner-reads organization_id caller c db t h in
        let (same', row) = membership-row organization_id user_id (some m) db u k in
        let (found, org) = member-found organization_id user_id m db good.unique row in
        subst {A = Db} (λ d. Owned d) (ground arith) (removed db good m found (ground arith))
    go false (ok (c, t)) (ok (none, u)) s h k =
        let (same, p, q) = check_admin_or_owner-reads organization_id caller c db t h in
        absurd (ground arith)
    go false (ok (c, t)) (err y) s h k =
        let (same, p, q) = check_admin_or_owner-reads organization_id caller c db t h in
        absurd (ground arith)
    go false (err x) y s h k = absurd (ground arith)
