-- ===== src/Token/Revocation.antt =====
-- Revoked tokens of app/services/refresh_token_service.py under sequences of calls.
use floww_backend.Prelude.{
  ℕ, ◌≡◌, refl, Bool, true, false, not, Option, none, some, List, [], ◌∷◌, String, str_eq, is_some,
  all, all-append, select, map, arith, if◌then◌else◌,
}
use floww_backend.Session.{Session, Result, ok, err, pure, scalar_one_or_none, >>=-eq-ok, ◌>>◌}
use floww_backend.Table.Rows.{
  all-put, all-select, one-all, one-passes, put-only, every-one, all-guarded,
}
use floww_backend.Token.Tokens.{
  RefreshToken, Db, same_token, with_hash, save_token, insert_token, active_of, stale, find_token,
  create_refresh_token, validate_and_update_refresh_token, revoke_refresh_token,
  revoke_all_user_tokens, cleanup_revoked_tokens,
}

-- A call of the service.
pub data Request : Type 0 where
  create : String → ℕ → ℕ → Option String → Request
  validate revoke : String → Request
  revoke_all : ℕ → Request
  cleanup : ℕ → Request

-- The records of the hash are revoked.
abbrev pub withdrawn : String → RefreshToken → Bool
withdrawn h t = if with_hash h t then is_some t.revoked_at else true

unfoldable pub revoked : String → Db → Bool
revoked h db = all (withdrawn h) db.refresh_tokens

module _ (hash_token : String → String) where
  -- A new token has another hash.
  abbrev pub fresh : String → Request → Bool
  fresh h (create token new_id user_id device_name) = not (str_eq (hash_token token) h)
  fresh h _ = true

  unfoldable pub perform : ℕ → Request → Session Db Unit
  perform now (create token new_id user_id device_name) =
      create_refresh_token hash_token token new_id now user_id device_name >> pure tt
  perform now (validate token) = validate_and_update_refresh_token hash_token now token >> pure tt
  perform now (revoke token) = revoke_refresh_token hash_token now token >> pure tt
  perform now (revoke_all user_id) = revoke_all_user_tokens now user_id >> pure tt
  perform now (cleanup days_old) = cleanup_revoked_tokens now days_old >> pure tt

  unfoldable pub perform_all : List (ℕ × Request) → Session Db Unit
  perform_all [] = pure tt
  perform_all ((now, request) ∷ rest) = perform now request >> perform_all rest

module _ (hash_token : String → String) (h : String) where
  validate-revoked :
      (now : ℕ) (token : String) (db db' : Db) (a : Option ℕ)
      → validate_and_update_refresh_token hash_token now token db ≡ ok (a, db')
      → revoked h db ≡ true
      → revoked h db' ≡ true
  unfolding validate_and_update_refresh_token find_token save_token revoked with_hash
  validate-revoked now token db db' a e b =
      go (scalar_one_or_none (select (with_hash (hash_token token)) db.refresh_tokens)) refl
    where
      go :
          (x : Result (Option RefreshToken))
          → scalar_one_or_none (select (with_hash (hash_token token)) db.refresh_tokens) ≡ x
          → revoked h db' ≡ true
      go (ok none) k = ground arith
      go (ok (some r)) k = ground (
        arith,
        all-put same_token (withdrawn h) (record r { last_used_at = now }) db.refresh_tokens,
        one-all (withdrawn h) (with_hash (hash_token token)) db.refresh_tokens r,
      )
      go (err x) k = absurd (ground arith)

  revoke-revoked :
      (now : ℕ) (token : String) (db db' : Db) (a : Bool)
      → revoke_refresh_token hash_token now token db ≡ ok (a, db')
      → revoked h db ≡ true
      → revoked h db' ≡ true
  unfolding revoke_refresh_token find_token save_token revoked with_hash
  revoke-revoked now token db db' a e b =
      go (scalar_one_or_none (select (with_hash (hash_token token)) db.refresh_tokens)) refl
    where
      go :
          (x : Result (Option RefreshToken))
          → scalar_one_or_none (select (with_hash (hash_token token)) db.refresh_tokens) ≡ x
          → revoked h db' ≡ true
      go (ok none) k = ground arith
      go (ok (some r)) k = ground (
        arith,
        all-put same_token (withdrawn h) (record r { revoked_at = some now }) db.refresh_tokens,
      )
      go (err x) k = absurd (ground arith)

  all-map :
      (now user_id : ℕ) (rows : List RefreshToken)
      → all (withdrawn h) rows ≡ true
      → all (withdrawn h) (
          map
            (λ (t : RefreshToken).
              if active_of user_id t then record t { revoked_at = some now } else t)
            rows)
        ≡ true
  unfolding with_hash
  all-map now user_id [] b = refl
  all-map now user_id (x ∷ rows) b = ground (arith, all-map now user_id rows)

  insert-revoked :
      (t : RefreshToken) (db db' : Db)
      → str_eq t.token_hash h ≡ false
      → insert_token t db ≡ ok (tt, db')
      → revoked h db ≡ true
      → revoked h db' ≡ true
  unfolding insert_token revoked with_hash
  insert-revoked t db db' apart e b =
      ground (arith, all-append (withdrawn h) db.refresh_tokens (t ∷ []))

  create-revoked :
      (token : String) (new_id now user_id : ℕ) (device_name : Option String) (db db' : Db)
      (a : String)
      → str_eq (hash_token token) h ≡ false
      → create_refresh_token hash_token token new_id now user_id device_name db ≡ ok (a, db')
      → revoked h db ≡ true
      → revoked h db' ≡ true
  unfolding create_refresh_token
  create-revoked token new_id now user_id device_name db db' a apart e b =
      let (_, d1, e1, k1) = >>=-eq-ok (insert_token _) _ db e in
      ground (arith, insert-revoked _ db d1 apart e1)

  perform-revoked :
      (now : ℕ) (request : Request) (db db' : Db)
      → fresh hash_token h request ≡ true
      → perform hash_token now request db ≡ ok (tt, db')
      → revoked h db ≡ true
      → revoked h db' ≡ true
  unfolding perform revoke_all_user_tokens cleanup_revoked_tokens
  perform-revoked now (create token new_id user_id device_name) db db' v e b =
      let (a, d1, e1, k1) =
        >>=-eq-ok (create_refresh_token hash_token token new_id now user_id device_name) _ db e in
      ground (arith, create-revoked token new_id now user_id device_name db d1 a (ground arith) e1)
  perform-revoked now (validate token) db db' v e b =
      let (a, d1, e1, k1) =
        >>=-eq-ok (validate_and_update_refresh_token hash_token now token) _ db e in
      ground (arith, validate-revoked now token db d1 a e1)
  perform-revoked now (revoke token) db db' v e b =
      let (a, d1, e1, k1) = >>=-eq-ok (revoke_refresh_token hash_token now token) _ db e in
      ground (arith, revoke-revoked now token db d1 a e1)
  perform-revoked now (revoke_all user_id) db db' v e b =
      unfold revoked in ground (arith, all-map now user_id db.refresh_tokens)
  perform-revoked now (cleanup days_old) db db' v e b =
      unfold revoked in
      ground (
        arith,
        all-select (withdrawn h) (λ (t : RefreshToken). not (stale now days_old t))
            db.refresh_tokens,
      )

  perform_all-revoked :
      (requests : List (ℕ × Request)) (db db' : Db)
      → all (λ (x : ℕ × Request). fresh hash_token h x.1) requests ≡ true
      → perform_all hash_token requests db ≡ ok (tt, db')
      → revoked h db ≡ true
      → revoked h db' ≡ true
  unfolding perform_all
  perform_all-revoked [] db db' v e b = ground arith
  perform_all-revoked ((now, request) ∷ rest) db db' v e b =
      let (a, d1, e1, k1) = >>=-eq-ok (perform hash_token now request) _ db e in
      perform_all-revoked rest d1 db' (ground arith) k1
        (perform-revoked now request db d1 (ground arith) e1 b)

module _ (hash_token : String → String) (token : String) where
  same_token_self : (t : RefreshToken) → same_token t t ≡ true
  unfolding same_token
  same_token_self t = ground arith

  has_time : RefreshToken → Bool
  has_time t = is_some t.revoked_at

  -- After a revocation that found the token, its records are revoked.
  revoke-withdraws :
      (now : ℕ) (db db' : Db)
      → revoke_refresh_token hash_token now token db ≡ ok (true, db')
      → revoked (hash_token token) db' ≡ true
  unfolding revoke_refresh_token find_token save_token revoked has_time same_token
  revoke-withdraws now db db' e =
      go (scalar_one_or_none (select (with_hash (hash_token token)) db.refresh_tokens)) refl
    where
      go :
          (x : Result (Option RefreshToken))
          → scalar_one_or_none (select (with_hash (hash_token token)) db.refresh_tokens) ≡ x
          → revoked (hash_token token) db' ≡ true
      go (ok none) k = absurd (ground arith)
      go (ok (some r)) k = ground (
        arith,
        all-guarded has_time (with_hash (hash_token token)) db.refresh_tokens,
        every-one has_time (select (with_hash (hash_token token)) db.refresh_tokens) r k,
        every-one (same_token (record r { revoked_at = some now }))
            (select (with_hash (hash_token token)) db.refresh_tokens) r k,
        put-only same_token has_time (with_hash (hash_token token))
            (record r { revoked_at = some now }) db.refresh_tokens,
      )
      go (err x) k = absurd (ground arith)

  validate-none :
      (now : ℕ) (db db' : Db) (a : Option ℕ)
      → revoked (hash_token token) db ≡ true
      → validate_and_update_refresh_token hash_token now token db ≡ ok (a, db')
      → a ≡ none
  unfolding validate_and_update_refresh_token find_token revoked
  validate-none now db db' a b e =
      go (scalar_one_or_none (select (with_hash (hash_token token)) db.refresh_tokens)) refl
    where
      go :
          (x : Result (Option RefreshToken))
          → scalar_one_or_none (select (with_hash (hash_token token)) db.refresh_tokens) ≡ x
          → a ≡ none
      go (ok none) k = ground arith
      go (ok (some r)) k = ground (
        arith,
        one-all (withdrawn (hash_token token)) (with_hash (hash_token token)) db.refresh_tokens r,
        one-passes (with_hash (hash_token token)) db.refresh_tokens r,
      )
      go (err x) k = absurd (ground arith)

  -- After a revocation that found the token, no sequence of creations of tokens with another
  -- hash, validations, revocations, revocations of all tokens of a user and cleanups, at any
  -- times, leads to a state in which a validation of the token returns a user.
  pub revoked_never_valid :
      (revoked_at now : ℕ) (requests : List (ℕ × Request)) (db left later seen : Db) (a : Option ℕ)
      → revoke_refresh_token hash_token revoked_at token db ≡ ok (true, left)
      → all (λ (x : ℕ × Request). fresh hash_token (hash_token token) x.1) requests ≡ true
      → perform_all hash_token requests left ≡ ok (tt, later)
      → validate_and_update_refresh_token hash_token now token later ≡ ok (a, seen)
      → a ≡ none
  revoked_never_valid revoked_at now requests db left later seen a r v p k =
      validate-none now later seen a
        (perform_all-revoked hash_token (hash_token token) requests left later v p
          (revoke-withdraws revoked_at db left r))
        k
