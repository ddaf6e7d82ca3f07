-- ===== src/Login/Grants.antt =====
-- What a poll of app/routes/device_auth.py that got tokens had read.
use floww_backend.Prelude.{
  ℕ, ◌≡◌, refl, sym, ap, ◌∙◌, true, Option, none, some, String, find, arith,
}
use floww_backend.Session.{Result, ok, err, scalar_one_or_none, >>=-eq-ok, pure}
use floww_backend.Table.{consistent}
use floww_backend.Table.Laws.{scalar_one_or_none-select}
use floww_backend.Device.Codes
use floww_backend.Device.Codes.{
  DeviceCode, pending, approved, denied, expired, clash_code, same_code, with_user_code,
  with_device_code, get_device_code_by_user_code, approve_device_code, check_device_code_status,
  get_device_code_by_device_code, delete_device_code,
}
use floww_backend.Device.Approval.{after, with_device_code-PicksUnique}
use floww_backend.Token.Tokens
use floww_backend.Token.Tokens.{
  RefreshToken, clash_token, with_hash, same_token, find_token, insert_token, save_token,
  create_refresh_token, validate_and_update_refresh_token,
}
use floww_backend.Login.Endpoints.{
  AuthDb, Settings, token_response, error_response, access_denied, device_token, answer_status,
  grant_tokens, on_codes,
}
use floww_backend.Login.Lookups.{gone}

-- The row that a granted poll read: it was approved for the user of the access token.
pub record Grant (cfg : Settings) (device_code access_token : String) (before after : AuthDb)
    : Type 0 where
  pub row : DeviceCode
  pub user_id : ℕ
  pub found : find (with_device_code device_code) before.codes.device_codes ≡ some row
  pub is_approved : row.status ≡ approved
  pub of_same_user : row.user_id ≡ some user_id
  pub signed_for : access_token ≡ cfg.create_token user_id
  pub used_up :
      (later : ℕ)
      → check_device_code_status later device_code after.codes ≡ ok ((expired, none), after.codes)

unapproved :
    (cfg : Settings) (now new_id : ℕ)
    (plaintext_token device_code access_token refresh_token : String) (db db' : AuthDb)
    (status : Codes.DeviceCodeStatus × Option ℕ)
    → answer_status cfg now plaintext_token new_id device_code status db
      ≡ ok (token_response access_token refresh_token, db')
    → (user_id : ℕ) × (status ≡ (approved, some user_id))
      × (access_token ≡ cfg.create_token user_id)
      × (delete_device_code device_code db.codes ≡ ok (tt, db'.codes))
unfolding answer_status grant_tokens
unapproved cfg now new_id plaintext_token device_code access_token refresh_token db db'
      (pending, user_id) e =
    absurd (ground arith)
unapproved cfg now new_id plaintext_token device_code access_token refresh_token db db'
      (denied, user_id) e =
    let (a, d1, e1, k1) =
      >>=-eq-ok (on_codes (delete_device_code device_code))
        (λ _. pure (error_response 400 access_denied)) db e in
    absurd (ground arith)
unapproved cfg now new_id plaintext_token device_code access_token refresh_token db db'
      (expired, user_id) e =
    absurd (ground arith)
unapproved cfg now new_id plaintext_token device_code access_token refresh_token db db'
      (approved, none) e =
    absurd (ground arith)
unapproved cfg now new_id plaintext_token device_code access_token refresh_token db db'
      (approved, some user_id) e =
    go
      (create_refresh_token cfg.hash_token plaintext_token new_id now user_id (some "CLI Device")
        db.tokens)
      (delete_device_code device_code db.codes) refl refl
  where
    go :
        (x : Result (String × Tokens.Db)) (y : Result (Unit {0} × Codes.Db))
        → create_refresh_token cfg.hash_token plaintext_token new_id now user_id
            (some "CLI Device")
            db.tokens
          ≡ x
        → delete_device_code device_code db.codes ≡ y
        → (u : ℕ) × (◌≡◌ {A = Codes.DeviceCodeStatus × Option ℕ}
            (approved, some user_id)
            (approved, some u))
          × (access_token ≡ cfg.create_token u)
          × (delete_device_code device_code db.codes ≡ ok (tt, db'.codes))
    go (ok (t, tokens)) (ok (tt, codes)) h k = (user_id, refl, ground arith, ground arith)
    go (ok (t, tokens)) (err y) h k = absurd (ground arith)
    go (err x) y h k = absurd (ground arith)

poll_then :
    (now : ℕ) (device_code : String) (db after : Codes.Db) (user_id : ℕ)
    → consistent clash_code db.device_codes ≡ true
    → check_device_code_status now device_code db ≡ ok ((approved, some user_id), after)
    → (row : DeviceCode) × (find (with_device_code device_code) db.device_codes ≡ some row)
      × (row.status ≡ approved)
      × (row.user_id ≡ some user_id)
      × (after ≡ db)
unfolding check_device_code_status get_device_code_by_device_code
poll_then now device_code db after user_id c e =
    go (find (with_device_code device_code) db.device_codes) refl
  where
    go :
        (x : Option DeviceCode)
        → find (with_device_code device_code) db.device_codes ≡ x
        → (row : DeviceCode) × (find (with_device_code device_code) db.device_codes ≡ some row)
          × (row.status ≡ approved)
          × (row.user_id ≡ some user_id)
          × (after ≡ db)
    go none h = absurd (
        ground (
          arith,
          scalar_one_or_none-select clash_code (with_device_code device_code)
              (with_device_code-PicksUnique device_code) db.device_codes c,
        ))
    go (some r) h =
        let s =
          scalar_one_or_none-select clash_code (with_device_code device_code)
            (with_device_code-PicksUnique device_code) db.device_codes c in
        (r, h, ground (arith, s), ground (arith, s), ground (arith, s))

delete_then :
    (later : ℕ) (device_code : String) (db after : Codes.Db) (row : DeviceCode)
    → consistent clash_code db.device_codes ≡ true
    → find (with_device_code device_code) db.device_codes ≡ some row
    → delete_device_code device_code db ≡ ok (tt, after)
    → check_device_code_status later device_code after ≡ ok ((expired, none), after)
unfolding check_device_code_status get_device_code_by_device_code delete_device_code
    scalar_one_or_none
delete_then later device_code db after row c f e = ground (
  arith,
  gone device_code row db.device_codes c f,
  scalar_one_or_none-select clash_code (with_device_code device_code)
      (with_device_code-PicksUnique device_code) db.device_codes c,
)

-- On unique codes, a poll that got tokens read a code that was approved for the user for whom
-- the access token is signed, and afterwards every poll of the code is answered as expired.
pub device_token-Grant :
    (cfg : Settings) (now new_id : ℕ)
    (plaintext_token device_code grant_type access_token refresh_token : String) (db db' : AuthDb)
    → consistent clash_code db.codes.device_codes ≡ true
    → device_token cfg now plaintext_token new_id device_code grant_type db
      ≡ ok (token_response access_token refresh_token, db')
    → Grant cfg device_code access_token db db'
unfolding device_token
device_token-Grant cfg now new_id plaintext_token device_code grant_type access_token refresh_token
      db db' c e =
    go (check_device_code_status now device_code db.codes) refl
  where
    go :
        (x : Result ((Codes.DeviceCodeStatus × Option ℕ) × Codes.Db))
        → check_device_code_status now device_code db.codes ≡ x
        → Grant cfg device_code access_token db db'
    go (ok (status, codes)) h =
        let (u, s, t, d) =
          unapproved cfg now new_id plaintext_token device_code access_token refresh_token
            (record db { codes = codes }) db' status (ground arith) in
        let (row, f, a, o, z) =
          poll_then now device_code db.codes codes u c (h ∙ ap (λ x. ok (x, codes)) s) in
        record {
          row = row;
          user_id = u;
          found = f;
          is_approved = a;
          of_same_user = o;
          signed_for = t;
          used_up = λ later.
              delete_then later device_code db.codes db'.codes row c f
                (sym (ap (delete_device_code device_code) z) ∙ d);
        }
    go (err x) h = absurd (ground arith)
