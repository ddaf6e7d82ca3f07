-- ===== src/Token/Tests.antt =====
-- A token is revoked, presented and presented again.
use floww_backend.Prelude.{ℕ, ◌≡◌, refl, true, Option, none, some, String, List, [], ◌∷◌}
use floww_backend.Session.{ok, scalar_one_or_none}
use floww_backend.Table.{put}
use floww_backend.Token.Tokens.{
  RefreshToken, Db, same_token, with_hash, find_token, save_token,
  validate_and_update_refresh_token, revoke_refresh_token, revoke_all_user_tokens, active_of,
}
use floww_backend.Token.Revocation.{
  Request, validate, revoke_all, perform, perform_all, revoked_never_valid,
}

abbrev plain : String → String
plain text = text

abbrev token : RefreshToken
token = record {
  id = 1;
  user_id = 7;
  token_hash = "secret";
  device_name = none;
  revoked_at = none;
  last_used_at = 2;
}

abbrev table : Db
table = record { refresh_tokens = token ∷ [] }

abbrev left : Db
left = record { refresh_tokens = record token { revoked_at = some 5 } ∷ [] }

abbrev requests : List (ℕ × Request)
requests = (6, validate "secret") ∷ (7, revoke_all 7) ∷ []

token_revoked : revoke_refresh_token plain 5 "secret" table ≡ ok (true, left)
unfolding revoke_refresh_token find_token save_token with_hash scalar_one_or_none put same_token
token_revoked = refl

requests_made : perform_all plain requests left ≡ ok (tt, left)
unfolding perform_all perform validate_and_update_refresh_token find_token with_hash
    scalar_one_or_none revoke_all_user_tokens active_of
requests_made = refl

presented : validate_and_update_refresh_token plain 8 "secret" left ≡ ok (none, left)
unfolding validate_and_update_refresh_token find_token with_hash scalar_one_or_none
presented = refl

revoked_never_valid_example : ◌≡◌ {A = Option ℕ} none none
revoked_never_valid_example =
    revoked_never_valid plain "secret" 5 8 requests table left left left none token_revoked refl
      requests_made presented
