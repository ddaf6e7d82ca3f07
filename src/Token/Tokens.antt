-- ===== src/Token/Tokens.antt =====
-- The operations of app/services/refresh_token_service.py on the rows of `RefreshToken` in
-- app/models.py. `hash_token` is the SHA-256 of `_hash_token`; a new token is an argument, as
-- `generate_refresh_token` draws it at random.
use floww_backend.Prelude.{
  ℕ, ◌+◌, ◌*◌, Bool, true, false, not, ◌&&◌, ◌||◌, Option, none, some, List, [], ◌∷◌, ◌++◌, String,
  ltb, ◌==◌, str_eq, is_some, length, select, map, if◌then◌else◌,
}
use floww_backend.Session.{
  Session, pure, lift, ok, err, integrity_error, scalar_one_or_none, ◌>>=◌, ◌>>◌,
}
use floww_backend.Table.{consistent, put}

pub record RefreshToken : Type 0 where
  pub id : ℕ
  pub user_id : ℕ
  pub token_hash : String
  pub device_name : Option String
  pub revoked_at : Option ℕ
  pub last_used_at : ℕ

pub record Db : Type 0 where
  pub refresh_tokens : List RefreshToken

-- The primary key and the unique column.
unfoldable pub clash_token : RefreshToken → RefreshToken → Bool
clash_token a b = a.id == b.id || str_eq a.token_hash b.token_hash

unfoldable pub same_token : RefreshToken → RefreshToken → Bool
same_token a b = a.id == b.id

unfoldable pub with_hash : String → RefreshToken → Bool
with_hash token_hash t = str_eq t.token_hash token_hash

-- A changed record and the commit.
unfoldable pub save_token : RefreshToken → Session Db Unit
save_token t db = ok (tt, record db { refresh_tokens = put same_token t db.refresh_tokens })

unfoldable pub insert_token : RefreshToken → Session Db Unit
insert_token t db =
    let rows = db.refresh_tokens ++ t ∷ [] in
    if consistent clash_token rows
    then ok (tt, record db { refresh_tokens = rows })
    else err integrity_error

-- `RefreshToken.revoked_at.is_(None)`, of a user.
unfoldable pub active_of : ℕ → RefreshToken → Bool
active_of user_id t = t.user_id == user_id && not (is_some t.revoked_at)

-- Revoked before the cutoff, so many days before now.
unfoldable pub stale : ℕ → ℕ → RefreshToken → Bool
stale now days_old t = elim t.revoked_at [
  | none ↦ false
  | some revoked_at ↦ ltb (revoked_at + days_old * 86_400_000_000) now
]

module _ (hash_token : String → String) where
  unfoldable pub find_token : String → Session Db (Option RefreshToken)
  find_token token db =
      lift (scalar_one_or_none (select (with_hash (hash_token token)) db.refresh_tokens)) db

  unfoldable pub create_refresh_token : String → ℕ → ℕ → ℕ → Option String → Session Db String
  unfolding insert_token
  create_refresh_token plaintext_token new_id now user_id device_name = do
    insert_token (record {
      id = new_id;
      user_id = user_id;
      token_hash = hash_token plaintext_token;
      device_name = device_name;
      revoked_at = none;
      last_used_at = now;
    })
    pure plaintext_token

  unfoldable pub validate_and_update_refresh_token : ℕ → String → Session Db (Option ℕ)
  unfolding find_token save_token
  validate_and_update_refresh_token now refresh_token = do
    found ← find_token refresh_token
    elim found [
      | none ↦ pure none
      | some t ↦
          if is_some t.revoked_at
          then pure none
          else (do save_token (record t { last_used_at = now }); pure (some t.user_id))
    ]

  unfoldable pub revoke_refresh_token : ℕ → String → Session Db Bool
  unfolding find_token save_token
  revoke_refresh_token now refresh_token = do
    found ← find_token refresh_token
    elim found [
      | none ↦ pure false
      | some t ↦
          if is_some t.revoked_at
          then pure true
          else (do save_token (record t { revoked_at = some now }); pure true)
    ]

-- All active tokens of the user are revoked, and counted.
unfoldable pub revoke_all_user_tokens : ℕ → ℕ → Session Db ℕ
unfolding active_of
revoke_all_user_tokens now user_id db = ok (
  length (select (active_of user_id) db.refresh_tokens),
  record db {
    refresh_tokens =
        map
          (λ (t : RefreshToken).
            if active_of user_id t then record t { revoked_at = some now } else t)
          db.refresh_tokens;
  },
)

-- The tokens that were revoked long ago are deleted, and counted.
unfoldable pub cleanup_revoked_tokens : ℕ → ℕ → Session Db ℕ
unfolding stale
cleanup_revoked_tokens now days_old db = ok (
  length (select (stale now days_old) db.refresh_tokens),
  record db {
    refresh_tokens = select (λ (t : RefreshToken). not (stale now days_old t)) db.refresh_tokens;
  },
)
