-- ===== src/Login/Exchange.antt =====
-- The device flow of app/routes/device_auth.py from the user's approval to the tokens.
use floww_backend.Prelude.{
  ℕ, ◌≤◌, ◌≡◌, refl, ◌∙◌, true, not, none, some, [], ◌∷◌, ◌++◌, String, same_text_self, find,
  select, arith,
}
use floww_backend.Session.{ok, scalar_one_or_none, ◌>>=◌, ◌>>◌}
use floww_backend.Table.{consistent, put, clear}
use floww_backend.Table.Laws.{scalar_one_or_none-select, consistent-insert}
use floww_backend.Table.Rows.{scalar-append}
use floww_backend.Device.Codes
use floww_backend.Device.Codes.{
  DeviceCode, pending, approved, denied, expired, clash_code, same_code, with_user_code,
  with_device_code, get_device_code_by_user_code, approve_device_code, check_device_code_status,
  get_device_code_by_device_code, delete_device_code,
}
use floww_backend.Device.Approval.{
  approve_run, approve_then_check, after, after-consistent, device_found, signed,
  with_user_code-PicksUnique, with_device_code-PicksUnique,
}
use floww_backend.Token.Tokens.{
  RefreshToken, clash_token, with_hash, same_token, find_token, insert_token, create_refresh_token,
}
use floww_backend.Login.Endpoints.{
  AuthDb, Settings, token_response, access_response, error_response, expired_token, success_page,
  device_verify_submit, device_token, answer_status, grant_tokens, token_refresh, on_codes,
  on_tokens,
}
use floww_backend.Login.Lookups.{
  device_code_grant, clash_token_comm, no_hash, gone, token-status, refresh-user,
}

-- `user_code.upper().strip()`
abbrev pub normal_code : Settings → String → String
normal_code cfg user_code = cfg.strip (cfg.upper user_code)

module _ (cfg : Settings) (now user_id : ℕ) (user_code : String) (r : DeviceCode) (db : AuthDb)
    (auth : cfg.password_auth ≡ true) (valid : consistent clash_code db.codes.device_codes ≡ true)
    (found : find (with_user_code (cfg.upper (normal_code cfg user_code))) db.codes.device_codes
      ≡ some r)
    (in_time : now ≤ r.expires_at) (waiting : r.status ≡ pending) where
  abbrev pub approved_codes : Codes.Db
  approved_codes =
      after cfg.upper now user_id (normal_code cfg user_code) r db.codes valid found in_time waiting

  -- The row of the code, approved by the user.
  abbrev signed_row : DeviceCode
  signed_row =
      signed cfg.upper now user_id (normal_code cfg user_code) r db.codes valid found in_time
        waiting

  codes_agree : consistent clash_code approved_codes.device_codes ≡ true
  codes_agree =
      after-consistent cfg.upper now user_id (normal_code cfg user_code) r db.codes valid found
        in_time waiting

  row_found : find (with_device_code r.device_code) approved_codes.device_codes ≡ some signed_row
  row_found =
      device_found cfg.upper now user_id (normal_code cfg user_code) r db.codes valid found in_time
        waiting

  verify_run :
      device_verify_submit cfg now (some user_id) user_code db
      ≡ ok (success_page, record db { codes = approved_codes })
  unfolding device_verify_submit get_device_code_by_user_code
  verify_run = ground (
    arith,
    approve_run cfg.upper now user_id (normal_code cfg user_code) r db.codes valid found in_time
        waiting,
    scalar_one_or_none-select clash_code (with_user_code (cfg.upper (normal_code cfg user_code)))
        (with_user_code-PicksUnique (cfg.upper (normal_code cfg user_code))) db.codes.device_codes
        valid,
  )

  module _ (t_now new_id : ℕ) (plaintext_token : String) (provider : cfg.password_provider ≡ true)
      (tokens_valid : consistent clash_token db.tokens.refresh_tokens ≡ true) where
    abbrev pub new_token : RefreshToken
    new_token = record {
      id = new_id;
      user_id = user_id;
      token_hash = cfg.hash_token plaintext_token;
      device_name = some "CLI Device";
      revoked_at = none;
      last_used_at = t_now;
    }

    abbrev pub granted : AuthDb
    granted = record {
      codes = record {
        device_codes = select (λ x. not (same_code signed_row x)) approved_codes.device_codes;
      };
      tokens = record { refresh_tokens = db.tokens.refresh_tokens ++ new_token ∷ [] };
    }

    module _ (new : clear clash_token new_token db.tokens.refresh_tokens ≡ true) where
      accepted : consistent clash_token (db.tokens.refresh_tokens ++ new_token ∷ []) ≡ true
      accepted =
          consistent-insert clash_token clash_token_comm new_token db.tokens.refresh_tokens
            tokens_valid
          ∙ new

      create_run :
          create_refresh_token cfg.hash_token plaintext_token new_id t_now user_id
            (some "CLI Device")
            db.tokens
          ≡ ok (plaintext_token, granted.tokens)
      unfolding create_refresh_token insert_token
      create_run = rw (create_refresh_token, ◌>>=◌, ◌>>◌, insert_token, accepted) refl

      poll_run :
          check_device_code_status t_now r.device_code approved_codes
          ≡ ok ((approved, some user_id), approved_codes)
      poll_run =
          (approve_then_check cfg.upper now user_id (normal_code cfg user_code) r db.codes valid
              found in_time waiting).1
            t_now

      lookup :
          get_device_code_by_device_code r.device_code approved_codes
          ≡ ok (some signed_row, approved_codes)
      unfolding get_device_code_by_device_code
      lookup = ground (
        arith,
        row_found,
        scalar_one_or_none-select clash_code (with_device_code r.device_code)
            (with_device_code-PicksUnique r.device_code) approved_codes.device_codes codes_agree,
      )

      delete_run : delete_device_code r.device_code approved_codes ≡ ok (tt, granted.codes)
      unfolding delete_device_code
      delete_run = rw (delete_device_code, ◌>>=◌, lookup) refl

      token_run :
          device_token cfg t_now plaintext_token new_id r.device_code device_code_grant
            (record db { codes = approved_codes })
          ≡ ok (token_response (cfg.create_token user_id) plaintext_token, granted)
      unfolding answer_status grant_tokens
      token_run =
          token-status cfg t_now new_id plaintext_token r.device_code
            (record db { codes = approved_codes }) (approved, some user_id) approved_codes auth
            poll_run
          ∙ rw
              (
                answer_status, grant_tokens, provider, ◌>>=◌, on_tokens, create_run, on_codes,
                delete_run,
              )
              refl

      gone_run :
          (later : ℕ)
          → check_device_code_status later r.device_code granted.codes
            ≡ ok ((expired, none), granted.codes)
      unfolding check_device_code_status get_device_code_by_device_code scalar_one_or_none
      gone_run later =
          rw
            (
              check_device_code_status,
              ◌>>=◌,
              get_device_code_by_device_code,
              gone r.device_code signed_row approved_codes.device_codes codes_agree row_found,
            )
            refl

      find_run :
          find_token cfg.hash_token plaintext_token granted.tokens
          ≡ ok (some new_token, granted.tokens)
      unfolding find_token
      find_run =
          let own = same_text_self (cfg.hash_token plaintext_token) in
          rw
            (scalar-append (with_hash (cfg.hash_token plaintext_token)) db.tokens.refresh_tokens
              new_token
              (rw
                (no_hash (cfg.hash_token plaintext_token) new_token db.tokens.refresh_tokens
                  (unfold with_hash in own) new)
                (unfold scalar_one_or_none in refl))
              (unfold with_hash in own))
            refl

      -- With password authentication, on unique codes and tokens and for a fresh refresh token,
      -- the submission of a pending user code in time by a signed-in user succeeds; the next
      -- poll of the device gets an access token of that user and the refresh token, which then
      -- at any time gives a further access token of that user; and any later poll of the device
      -- code is answered as expired.
      pub device_flow_completes :
          (device_verify_submit cfg now (some user_id) user_code db
            ≡ ok (success_page, record db { codes = approved_codes }))
          × (device_token cfg t_now plaintext_token new_id r.device_code device_code_grant
                (record db { codes = approved_codes })
              ≡ ok (token_response (cfg.create_token user_id) plaintext_token, granted))
          × ((later : ℕ)
              → (final : AuthDb) × (token_refresh cfg later plaintext_token granted
                  ≡ ok (access_response (cfg.create_token user_id), final)))
          × ((later other_id : ℕ) (other : String)
              → device_token cfg later other other_id r.device_code device_code_grant granted
                ≡ ok (error_response 400 expired_token, granted))
      unfolding answer_status
      device_flow_completes = (
        verify_run,
        token_run,
        (λ later. (
          record granted {
            tokens = record {
              refresh_tokens =
                  put same_token (record new_token { last_used_at = later })
                    granted.tokens.refresh_tokens;
            };
          },
          refresh-user cfg later plaintext_token granted new_token auth provider find_run refl,
        )),
        λ later other_id other.
            token-status cfg later other_id other r.device_code granted (expired, none)
              granted.codes auth (gone_run later),
      )
