-- ===== src/Login/Endpoints.antt =====
-- The endpoints of app/routes/device_auth.py. The settings, the user of the session cookie, the
-- random codes and tokens, `str.upper` with `str.strip`, and the signing of an access token are
-- parameters. A page is named by what it tells.
use floww_backend.Prelude.{ℕ, Bool, not, Option, none, some, String, str_eq, is_some, if◌then◌else◌}
use floww_backend.Session.{
  Session, pure, raise, ok, err, http_exception, runtime_error, ◌>>=◌, ◌>>◌,
}
use floww_backend.Device.Codes
use floww_backend.Device.Codes.{
  pending, approved, denied, expired, create_device_authorization, get_device_code_by_user_code,
  approve_device_code, check_device_code_status, delete_device_code,
}
use floww_backend.Token.Tokens
use floww_backend.Token.Tokens.{
  create_refresh_token, validate_and_update_refresh_token, revoke_refresh_token,
}

-- The tables of both services.
pub record AuthDb : Type 0 where
  pub codes : Codes.Db
  pub tokens : Tokens.Db

abbrev pub on_codes : {A : Type 0} → Session Codes.Db A → Session AuthDb A
on_codes m db = elim (m db.codes) [
  | ok (a, codes) ↦ ok (a, record db { codes = codes })
  | err e ↦ err e
]

abbrev pub on_tokens : {A : Type 0} → Session Tokens.Db A → Session AuthDb A
on_tokens m db = elim (m db.tokens) [
  | ok (a, tokens) ↦ ok (a, record db { tokens = tokens })
  | err e ↦ err e
]

pub data TokenError : Type 0 where
  unsupported_grant_type authorization_pending access_denied expired_token invalid_grant :
      TokenError

pub data Response : Type 0 where
  token_response : String → String → Response
  access_response : String → Response
  error_response : ℕ → TokenError → Response
  message_response : String → Response

pub data Page : Type 0 where
  login_redirect : Page
  approval_form : String → Page
  success_page : Page

-- What the settings and the request's surroundings give.
pub record Settings : Type 0 where
  pub password_auth : Bool
  pub password_provider : Bool
  pub create_token : ℕ → String
  pub upper : String → String
  pub strip : String → String
  pub hash_token : String → String

module _ (cfg : Settings) where
  require_password : String → Session AuthDb Unit
  require_password detail =
      if not cfg.password_auth then raise (http_exception 400 detail) else pure tt

  unfoldable pub device_authorize : (ℕ → String) → String → ℕ → ℕ → Session AuthDb (String × String)
  unfolding require_password
  device_authorize generated device_code new_id now = do
    require_password "Device authorization is only available with password authentication"
    on_codes (create_device_authorization generated device_code new_id now)

  -- `session_user` is the user whose token the session cookie carries, if it is a valid one.
  unfoldable pub device_verify_submit : ℕ → Option ℕ → String → Session AuthDb Page
  unfolding require_password
  device_verify_submit now session_user user_code = do
    require_password "Device authorization is only available with password authentication"
    elim session_user [
      | none ↦ pure login_redirect
      | some user_id ↦ do
        found ← on_codes (get_device_code_by_user_code cfg.upper (cfg.strip (cfg.upper user_code)))
        if not (is_some found)
            then pure (approval_form "Invalid or expired device code. Please try again.")
            else do
              success ←
                  on_codes
                    (approve_device_code cfg.upper now (cfg.strip (cfg.upper user_code)) user_id)
              if not success
                  then pure (
                      approval_form
                        "Failed to authorize device. The code may have expired or already been used.")
                  else pure success_page
    ]

  -- The branch of an approved code: the tokens are made, and the code is deleted.
  unfoldable pub grant_tokens : ℕ → String → ℕ → String → Option ℕ → Session AuthDb Response
  grant_tokens now plaintext_token new_id device_code none =
      raise (runtime_error "Device code approved but user_id is missing")
  grant_tokens now plaintext_token new_id device_code (some user_id) =
      if not cfg.password_provider
      then raise (runtime_error "Password auth provider not configured correctly")
      else do
        refresh_token ← on_tokens (
            create_refresh_token cfg.hash_token plaintext_token new_id now user_id
              (some "CLI Device"))
        on_codes (delete_device_code device_code)
        pure (token_response (cfg.create_token user_id) refresh_token)

  unfoldable pub answer_status :
      ℕ → String → ℕ → String → Codes.DeviceCodeStatus × Option ℕ → Session AuthDb Response
  unfolding grant_tokens
  answer_status now plaintext_token new_id device_code (pending, user_id) =
      pure (error_response 400 authorization_pending)
  answer_status now plaintext_token new_id device_code (denied, user_id) = do
    on_codes (delete_device_code device_code)
    pure (error_response 400 access_denied)
  answer_status now plaintext_token new_id device_code (expired, user_id) =
      pure (error_response 400 expired_token)
  answer_status now plaintext_token new_id device_code (approved, user_id) =
      grant_tokens now plaintext_token new_id device_code user_id

  unfoldable pub device_token : ℕ → String → ℕ → String → String → Session AuthDb Response
  unfolding require_password answer_status
  device_token now plaintext_token new_id device_code grant_type = do
    require_password "Device authorization is only available with password authentication"
    if not (str_eq grant_type "urn:ietf:params:oauth:grant-type:device_code")
        then pure (error_response 400 unsupported_grant_type)
        else do
          status ← on_codes (check_device_code_status now device_code)
          answer_status now plaintext_token new_id device_code status

  unfoldable pub token_refresh : ℕ → String → Session AuthDb Response
  unfolding require_password
  token_refresh now refresh_token = do
    require_password "Token refresh is only available with password authentication"
    user ← on_tokens (validate_and_update_refresh_token cfg.hash_token now refresh_token)
    elim user [
      | none ↦ pure (error_response 401 invalid_grant)
      | some user_id ↦
          if not cfg.password_provider
          then raise (runtime_error "Password auth provider not configured correctly")
          else pure (access_response (cfg.create_token user_id))
    ]

  unfoldable pub token_revoke : ℕ → String → Session AuthDb Response
  unfolding require_password
  token_revoke now refresh_token = do
    require_password "Token revocation is only available with password authentication"
    success ← on_tokens (revoke_refresh_token cfg.hash_token now refresh_token)
    if success
        then pure (message_response "Refresh token revoked successfully")
        else pure (message_response "Refresh token not found or already revoked")
