-- ===== src/Login/Lookups.antt =====
-- What the services of device codes and refresh tokens answer to app/routes/device_auth.py on tables
-- with unique codes and tokens.
use floww_backend.Prelude.{
  ℕ, ◌≡◌, refl, inl, inr, Bool, Bool-cases, true, not, Option, none, some, List, [], ◌∷◌, String,
  str_eq_comm, find, select, arith, eq_iff,
}
use floww_backend.Session.{ok}
use floww_backend.Table.{consistent, put, clear}
use floww_backend.Device.Codes
use floww_backend.Device.Codes.{
  DeviceCode, pending, approved, denied, expired, clash_code, same_code, with_user_code,
  with_device_code, get_device_code_by_user_code, approve_device_code, check_device_code_status,
  get_device_code_by_device_code, delete_device_code,
}
use floww_backend.Device.Approval.{with_device_code-PicksUnique, same_code_self}
use floww_backend.Token.Tokens.{
  RefreshToken, clash_token, with_hash, same_token, find_token, save_token,
  validate_and_update_refresh_token,
}
use floww_backend.Login.Endpoints.{
  AuthDb, Settings, access_response, device_token, answer_status, token_refresh,
}

-- The grant type that the token endpoint asks for.
abbrev pub device_code_grant : String
device_code_grant = "urn:ietf:params:oauth:grant-type:device_code"

pub clash_token_comm : (x y : RefreshToken) → clash_token x y ≡ clash_token y x
unfolding clash_token
clash_token_comm x y = ground (arith, str_eq_comm x.token_hash y.token_hash)

none_left :
    (d : String) (p : DeviceCode → Bool) (r : DeviceCode) (rows : List DeviceCode)
    → with_device_code d r ≡ true
    → clear clash_code r rows ≡ true
    → select (with_device_code d) (select p rows) ≡ []
none_left d p r [] h c = refl
none_left d p r (x ∷ rows) h c =
    ground (arith, with_device_code-PicksUnique d r x h, none_left d p r rows h)

pub no_hash :
    (token_hash : String) (t : RefreshToken) (rows : List RefreshToken)
    → with_hash token_hash t ≡ true
    → clear clash_token t rows ≡ true
    → select (with_hash token_hash) rows ≡ []
unfolding with_hash clash_token
no_hash h t [] k c = refl
no_hash h t (x ∷ rows) k c = ground (
  arith,
  eq_iff t.token_hash h,
  eq_iff x.token_hash h,
  eq_iff t.token_hash x.token_hash,
  no_hash h t rows k,
)

-- No device code is left by which the code can be found.
pub gone :
    (d : String) (r : DeviceCode) (rows : List DeviceCode)
    → consistent clash_code rows ≡ true
    → find (with_device_code d) rows ≡ some r
    → select (with_device_code d) (select (λ x. not (same_code r x)) rows) ≡ []
unfolding consistent
gone d r [] c f = refl
gone d r (x ∷ rows) c f = elim (Bool-cases (with_device_code d x)) [
  | inl h ↦ ground (arith, same_code_self x, none_left d (λ y. not (same_code x y)) x rows h)
  | inr h ↦ ground (arith, gone d r rows)
]

-- A poll with the right grant type answers by the status of the code.
pub token-status :
    (cfg : Settings) (now new_id : ℕ) (plaintext_token device_code : String) (db : AuthDb)
    (status : Codes.DeviceCodeStatus × Option ℕ) (codes : Codes.Db)
    → cfg.password_auth ≡ true
    → check_device_code_status now device_code db.codes ≡ ok (status, codes)
    → device_token cfg now plaintext_token new_id device_code device_code_grant db
      ≡ answer_status cfg now plaintext_token new_id device_code status
          (record db { codes = codes })
unfolding device_token
token-status cfg now new_id plaintext_token device_code db status codes auth e = ground (arith)

pub refresh-user :
    (cfg : Settings) (now : ℕ) (token : String) (db : AuthDb) (t : RefreshToken)
    → cfg.password_auth ≡ true
    → cfg.password_provider ≡ true
    → find_token cfg.hash_token token db.tokens ≡ ok (some t, db.tokens)
    → t.revoked_at ≡ none
    → token_refresh cfg now token db
      ≡ ok (
        access_response (cfg.create_token t.user_id),
        record db {
          tokens = record {
            refresh_tokens =
                put same_token (record t { last_used_at = now }) db.tokens.refresh_tokens;
          };
        },
      )
unfolding token_refresh validate_and_update_refresh_token save_token
refresh-user cfg now token db t auth provider e active = ground (arith)
