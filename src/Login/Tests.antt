-- ===== src/Login/Tests.antt =====
-- A device that is approved, and what it is given.
use floww_backend.Prelude.{
  arith, ℕ, ◌≡◌, refl, true, not, none, some, String, [], ◌∷◌, ◌++◌, find, select,
}
use floww_backend.Session.{ok, scalar_one_or_none}
use floww_backend.Table.{consistent, put}
use floww_backend.Device.Codes.{
  DeviceCode, pending, approved, clash_code, same_code, with_user_code, with_device_code,
}
use floww_backend.Device.Codes
use floww_backend.Token.Tokens
use floww_backend.Token.Tokens.{RefreshToken, clash_token}
use floww_backend.Login.Endpoints.{
  AuthDb, Settings, token_response, access_response, error_response, expired_token, success_page,
  device_verify_submit, device_token, token_refresh,
}
use floww_backend.Login.Exchange.{device_flow_completes}
use floww_backend.Login.Grants.{Grant, device_token-Grant}

abbrev cfg : Settings
cfg = record {
  password_auth = true;
  password_provider = true;
  create_token = λ _. "jwt";
  upper = λ s. s;
  strip = λ s. s;
  hash_token = λ s. s;
}

abbrev asked : DeviceCode
asked = record {
  id = 1;
  device_code = "device";
  user_code = "ABCD";
  user_id = none;
  status = pending;
  expires_at = 900;
}

abbrev db : AuthDb
db = record {
  codes = record { device_codes = asked ∷ [] };
  tokens = record { refresh_tokens = [] };
}

abbrev signed : DeviceCode
signed = record asked { status = approved; user_id = some 7 }

abbrev db_approved : AuthDb
db_approved = record db {
  codes = record { device_codes = put same_code signed db.codes.device_codes };
}

abbrev token : RefreshToken
token = record {
  id = 5;
  user_id = 7;
  token_hash = "secret";
  device_name = some "CLI Device";
  revoked_at = none;
  last_used_at = 50;
}

abbrev db_granted : AuthDb
db_granted = record {
  codes = record {
    device_codes = select (λ x. not (same_code signed x)) db_approved.codes.device_codes;
  };
  tokens = record { refresh_tokens = db.tokens.refresh_tokens ++ token ∷ [] };
}

codes_valid : consistent clash_code db.codes.device_codes ≡ true
unfolding consistent
codes_valid = refl

tokens_valid : consistent clash_token db.tokens.refresh_tokens ≡ true
unfolding consistent
tokens_valid = refl

asked_found : find (with_user_code "ABCD") db.codes.device_codes ≡ some asked
unfolding with_user_code
asked_found = refl

device_flow_completes_example :
    (device_verify_submit cfg 30 (some 7) "ABCD" db ≡ ok (success_page, db_approved))
    × (device_token cfg 50 "secret" 5 "device" "urn:ietf:params:oauth:grant-type:device_code"
          db_approved
        ≡ ok (token_response "jwt" "secret", db_granted))
    × ((later : ℕ)
        → (final : AuthDb) × (token_refresh cfg later "secret" db_granted
            ≡ ok (access_response "jwt", final)))
    × ((later other_id : ℕ) (other : String)
        → device_token cfg later other other_id "device"
            "urn:ietf:params:oauth:grant-type:device_code" db_granted
          ≡ ok (error_response 400 expired_token, db_granted))
device_flow_completes_example =
    device_flow_completes cfg 30 7 "ABCD" asked db refl codes_valid asked_found (omega arith) refl
      50 5 "secret" refl tokens_valid refl

approved_valid : consistent clash_code (signed ∷ []) ≡ true
unfolding consistent
approved_valid = refl

abbrev ready : AuthDb
ready = record db { codes = record { device_codes = signed ∷ [] } }

abbrev used : AuthDb
used = record {
  codes = record { device_codes = [] };
  tokens = record { refresh_tokens = token ∷ [] };
}

poll_runs :
    device_token cfg 50 "secret" 5 "device" "urn:ietf:params:oauth:grant-type:device_code" ready
    ≡ ok (token_response "jwt" "secret", used)
unfolding device_token Codes.check_device_code_status scalar_one_or_none with_device_code
    Tokens.create_refresh_token consistent Codes.delete_device_code same_code
poll_runs = refl

device_token-Grant_example : Grant cfg "device" "jwt" ready used
device_token-Grant_example =
    device_token-Grant cfg 50 5 "secret" "device" "urn:ietf:params:oauth:grant-type:device_code"
      "jwt" "secret" ready used approved_valid poll_runs
