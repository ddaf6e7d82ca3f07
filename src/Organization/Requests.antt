-- ===== src/Organization/Requests.antt =====
-- Sequences of calls of app/routes/organizations.py: a call that raises is rolled back.
use floww_backend.Prelude.{
  ℕ, ◌≡◌, refl, subst, Bool, ◌&&◌, ◌||◌, Option, List, [], ◌∷◌, String, arith,
}
use floww_backend.Session.{Session, Result, ok, err, pure, >>=-eq-ok, ◌>>◌}
use floww_backend.Organization.Data.{OrganizationRole, OrganizationMember, of_user}
use floww_backend.Organization.Routes.{
  Db, is_owner, is_admin, create_organization, update_organization, delete_organization,
  add_organization_member, update_organization_member, remove_organization_member,
}
use floww_backend.Organization.Owners.{Owned}
use floww_backend.Organization.Steps.{change-Owned, remove-Owned}
use floww_backend.Organization.Growth.{create-Owned, add-Owned}
use floww_backend.Organization.Changes.{delete-Owned, rename-Owned}

-- A call of an endpoint by a user.
pub data Request : Type 0 where
  create : ℕ × ℕ × ℕ → Option String → String → Request
  rename : ℕ → Option String → Request
  delete : ℕ → Request
  add : ℕ → ℕ → ℕ → OrganizationRole → Request
  change : ℕ → ℕ → OrganizationRole → Request
  remove : ℕ → ℕ → Request

unfoldable pub perform : Bool → ℕ → Request → Session Db Unit
perform single user_id (create new_ids workos_id name) =
    create_organization single new_ids workos_id user_id name >> pure tt
perform single user_id (rename organization_id name) =
    update_organization single user_id organization_id name >> pure tt
perform single user_id (delete organization_id) = delete_organization single user_id organization_id
perform single user_id (add new_id organization_id other role) =
    add_organization_member single new_id user_id organization_id other role >> pure tt
perform single user_id (change organization_id other role) =
    update_organization_member single user_id organization_id other role >> pure tt
perform single user_id (remove organization_id other) =
    remove_organization_member single user_id organization_id other

unfoldable pub serve : Bool → ℕ × Request → Db → Db
unfolding perform
serve single (user_id, request) db = elim (perform single user_id request db) [
  | ok (_, after) ↦ after
  | err _ ↦ db
]

unfoldable pub serve_all : Bool → List (ℕ × Request) → Db → Db
serve_all single [] db = db
serve_all single (call ∷ calls) db = serve_all single calls (serve single call db)

-- The row of a caller who may change members.
abbrev pub manages : ℕ → ℕ → OrganizationMember → Bool
manages organization_id user_id m =
    of_user organization_id user_id m && (is_owner m.role || is_admin m.role)

module _ (single : Bool) where
  perform-Owned :
      (user_id : ℕ) (request : Request) (db after : Db)
      → Owned db
      → perform single user_id request db ≡ ok (tt, after)
      → Owned after
  unfolding perform
  perform-Owned user_id (create new_ids workos_id name) db after good e =
      let (a, s, h, k) =
        >>=-eq-ok (create_organization single new_ids workos_id user_id name) _ db e in
      subst {A = Db} (λ d. Owned d) (ground arith)
        (create-Owned single new_ids workos_id user_id name db s a good h)
  perform-Owned user_id (rename organization_id name) db after good e =
      let (a, s, h, k) =
        >>=-eq-ok (update_organization single user_id organization_id name) _ db e in
      subst {A = Db} (λ d. Owned d) (ground arith)
        (rename-Owned single user_id organization_id name db s a good h)
  perform-Owned user_id (delete organization_id) db after good e =
      delete-Owned single user_id organization_id db after good e
  perform-Owned user_id (add new_id organization_id other role) db after good e =
      let (a, s, h, k) =
        >>=-eq-ok (add_organization_member single new_id user_id organization_id other role) _ db
          e in
      subst {A = Db} (λ d. Owned d) (ground arith)
        (add-Owned single new_id user_id organization_id other role db s a good h)
  perform-Owned user_id (change organization_id other role) db after good e =
      let (a, s, h, k) =
        >>=-eq-ok (update_organization_member single user_id organization_id other role) _ db e in
      subst {A = Db} (λ d. Owned d) (ground arith)
        (change-Owned single user_id organization_id other role db s a good h)
  perform-Owned user_id (remove organization_id other) db after good e =
      remove-Owned single user_id organization_id other db after good e

  serve-Owned : (call : ℕ × Request) (db : Db) → Owned db → Owned (serve single call db)
  unfolding serve
  serve-Owned (user_id, request) db good = go (perform single user_id request db) refl
    where
      go :
          (x : Result (Unit {0} × Db))
          → perform single user_id request db ≡ x
          → Owned (serve single (user_id, request) db)
      go (ok (u, after)) h =
          subst {A = Db} (λ d. Owned d) (ground arith)
            (perform-Owned user_id request db after good h)
      go (err x) h = subst {A = Db} (λ d. Owned d) (ground arith) good

  -- Where the memberships are unique and every organization has an owner, this holds again after
  -- any sequence of calls, by any users, that create, rename or delete organizations and add,
  -- change or remove members; a call that raises is rolled back.
  pub serve_all-Owned :
      (calls : List (ℕ × Request)) (db : Db) → Owned db → Owned (serve_all single calls db)
  unfolding serve_all
  serve_all-Owned [] db good = good
  serve_all-Owned (call ∷ calls) db good =
      serve_all-Owned calls (serve single call db) (serve-Owned call db good)
