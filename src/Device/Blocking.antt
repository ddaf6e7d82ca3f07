-- ===== src/Device/Blocking.antt =====
-- Denied and expired codes of app/services/device_code_service.py under sequences of calls.
use floww_backend.Prelude.{
  ℕ, zero, suc, ◌+◌, ◌≡◌, ◌≢◌, refl, Bool, true, false, not, Option, none, some, List, [], ◌∷◌,
  String, ltb, str_eq, all, all-append, select, arith,
}
use floww_backend.Session.{Result, ok, err, scalar_one_or_none, >>=-eq-ok}
use floww_backend.Table.Rows.{all-put, all-select, one-all, one-passes}
use floww_backend.Device.Codes.{
  DeviceCodeStatus, pending, approved, denied, expired, DeviceCode, Db, is_pending, same_code,
  with_user_code, with_device_code, save, unique_user_code, insert_code,
  create_device_authorization, get_device_code_by_user_code, approve_device_code, deny_device_code,
  get_device_code_by_device_code, check_device_code_status, device_code_expiry, delete_device_code,
  cleanup_expired_device_codes,
}
use floww_backend.Device.Requests.{
  Request, create, approve, deny, poll, exchange, cleanup, ends, blocks, blocked, avoids, perform,
  serve, serve_all,
}

unique_user_code-ok :
    (generated : ℕ → String) (attempts n : ℕ) (db db' : Db) (c : String)
    → unique_user_code generated attempts n db ≡ ok (c, db')
    → db' ≡ db
unfolding unique_user_code
unique_user_code-ok generated zero n db db' c h = absurd (ground arith)
unique_user_code-ok generated (suc attempts) n db db' c h =
    ground (arith, unique_user_code-ok generated attempts (n + 1) db db' c)

module _ (d : String) where
  blocks-changed :
      (r : DeviceCode) (s : DeviceCodeStatus)
      → ends s ≡ true
      → blocks d (record r { status = s }) ≡ true
  blocks-changed r s h = ground arith

  -- A pending record that is blocked is one of another device code.
  blocks-approved :
      (r : DeviceCode) (user_id : ℕ)
      → is_pending r.status ≡ true
      → blocks d r ≡ true
      → blocks d (record r { status = approved; user_id = some user_id }) ≡ true
  blocks-approved r user_id p h = ground arith

  insert-blocked :
      (r : DeviceCode) (db db' : Db)
      → str_eq r.device_code d ≡ false
      → insert_code r db ≡ ok (tt, db')
      → blocked d db ≡ true
      → blocked d db' ≡ true
  unfolding insert_code blocked
  insert-blocked r db db' apart h b = ground (arith, all-append (blocks d) db.device_codes (r ∷ []))

  create-blocked :
      (generated : ℕ → String) (device_code : String) (new_id now : ℕ) (db db' : Db)
      (a : String × String)
      → str_eq device_code d ≡ false
      → create_device_authorization generated device_code new_id now db ≡ ok (a, db')
      → blocked d db ≡ true
      → blocked d db' ≡ true
  unfolding create_device_authorization insert_code blocked
  create-blocked generated device_code new_id now db db' a apart h b =
      let (c, d1, h1, k1) = >>=-eq-ok (unique_user_code generated 10 0) _ db h in
      let (_, d2, h2, k2) = >>=-eq-ok (insert_code _) _ d1 k1 in
      ground (
        arith,
        unique_user_code-ok generated 10 0 db d1 c h1,
        insert-blocked (new_code c) d1 d2 apart h2,
      )
    where
      new_code : String → DeviceCode
      new_code c = record {
        id = new_id;
        device_code = device_code;
        user_code = c;
        user_id = none;
        status = pending;
        expires_at = now + device_code_expiry;
      }

  approve-blocked :
      (upper : String → String) (now : ℕ) (user_code : String) (user_id : ℕ) (db db' : Db)
      (a : Bool)
      → approve_device_code upper now user_code user_id db ≡ ok (a, db')
      → blocked d db ≡ true
      → blocked d db' ≡ true
  unfolding approve_device_code blocked save get_device_code_by_user_code
  approve-blocked upper now user_code user_id db db' a h b =
      go (scalar_one_or_none (select (with_user_code (upper user_code)) db.device_codes)) refl
    where
      go :
          (x : Result (Option DeviceCode))
          → scalar_one_or_none (select (with_user_code (upper user_code)) db.device_codes) ≡ x
          → blocked d db' ≡ true
      go (ok none) e = ground arith
      go (ok (some r)) e = ground (
        arith,
        all-put same_code (blocks d) (record r { status = expired }) db.device_codes,
        all-put same_code (blocks d) (record r { status = approved; user_id = some user_id })
            db.device_codes,
        one-all (blocks d) (with_user_code (upper user_code)) db.device_codes r,
      )
      go (err x) e = absurd (ground arith)

  deny-blocked :
      (upper : String → String) (user_code : String) (db db' : Db) (a : Bool)
      → deny_device_code upper user_code db ≡ ok (a, db')
      → blocked d db ≡ true
      → blocked d db' ≡ true
  unfolding deny_device_code blocked save get_device_code_by_user_code
  deny-blocked upper user_code db db' a h b =
      go (scalar_one_or_none (select (with_user_code (upper user_code)) db.device_codes)) refl
    where
      go :
          (x : Result (Option DeviceCode))
          → scalar_one_or_none (select (with_user_code (upper user_code)) db.device_codes) ≡ x
          → blocked d db' ≡ true
      go (ok none) e = ground arith
      go (ok (some r)) e =
          ground
            (arith, all-put same_code (blocks d) (record r { status = denied }) db.device_codes)
      go (err x) e = absurd (ground arith)

  check-blocked :
      (now : ℕ) (device_code : String) (db db' : Db) (a : DeviceCodeStatus × Option ℕ)
      → check_device_code_status now device_code db ≡ ok (a, db')
      → blocked d db ≡ true
      → blocked d db' ≡ true
  unfolding check_device_code_status blocked save get_device_code_by_device_code
  check-blocked now device_code db db' a h b =
      go (scalar_one_or_none (select (with_device_code device_code) db.device_codes)) refl
    where
      go :
          (x : Result (Option DeviceCode))
          → scalar_one_or_none (select (with_device_code device_code) db.device_codes) ≡ x
          → blocked d db' ≡ true
      go (ok none) e = ground arith
      go (ok (some r)) e =
          ground
            (arith, all-put same_code (blocks d) (record r { status = expired }) db.device_codes)
      go (err x) e = absurd (ground arith)

  delete-blocked :
      (device_code : String) (db db' : Db)
      → delete_device_code device_code db ≡ ok (tt, db')
      → blocked d db ≡ true
      → blocked d db' ≡ true
  unfolding delete_device_code blocked get_device_code_by_device_code
  delete-blocked device_code db db' h b =
      go (scalar_one_or_none (select (with_device_code device_code) db.device_codes)) refl
    where
      go :
          (x : Result (Option DeviceCode))
          → scalar_one_or_none (select (with_device_code device_code) db.device_codes) ≡ x
          → blocked d db' ≡ true
      go (ok none) e = ground arith
      go (ok (some r)) e =
          ground (arith, all-select (blocks d) (λ x. not (same_code r x)) db.device_codes)
      go (err x) e = absurd (ground arith)

  perform-blocked :
      (upper : String → String) (now : ℕ) (request : Request) (db db' : Db)
      → avoids d request ≡ true
      → perform upper now request db ≡ ok (tt, db')
      → blocked d db ≡ true
      → blocked d db' ≡ true
  unfolding perform cleanup_expired_device_codes
  perform-blocked upper now (create generated device_code new_id) db db' v h b =
      let (a, d1, h1, k1) =
        >>=-eq-ok (create_device_authorization generated device_code new_id now) _ db h in
      ground (arith, create-blocked generated device_code new_id now db d1 a (ground arith) h1)
  perform-blocked upper now (approve user_code user_id) db db' v h b =
      let (a, d1, h1, k1) = >>=-eq-ok (approve_device_code upper now user_code user_id) _ db h in
      ground (arith, approve-blocked upper now user_code user_id db d1 a h1)
  perform-blocked upper now (deny user_code) db db' v h b =
      let (a, d1, h1, k1) = >>=-eq-ok (deny_device_code upper user_code) _ db h in
      ground (arith, deny-blocked upper user_code db d1 a h1)
  perform-blocked upper now (poll device_code) db db' v h b =
      let (a, d1, h1, k1) = >>=-eq-ok (check_device_code_status now device_code) _ db h in
      ground (arith, check-blocked now device_code db d1 a h1)
  perform-blocked upper now (exchange device_code) db db' v h b =
      delete-blocked device_code db db' h b
  perform-blocked upper now cleanup db db' v h b =
      unfold blocked in
      ground (
        arith,
        all-select (blocks d) (λ (r : DeviceCode). not (ltb r.expires_at now)) db.device_codes,
      )

  serve-blocked :
      (upper : String → String) (now : ℕ) (request : Request) (db : Db) (r : Result (Unit {0} × Db))
      → perform upper now request db ≡ r
      → avoids d request ≡ true
      → blocked d db ≡ true
      → blocked d (serve upper (now, request) db) ≡ true
  unfolding serve
  serve-blocked upper now request db (ok (_, after)) e v b =
      rw (serve, e) (perform-blocked upper now request db after v e b)
  serve-blocked upper now request db (err x) e v b = rw (serve, e) b

  serve_all-blocked :
      (upper : String → String) (requests : List (ℕ × Request)) (db : Db)
      → all (λ (x : ℕ × Request). avoids d x.1) requests ≡ true
      → blocked d db ≡ true
      → blocked d (serve_all upper requests db) ≡ true
  unfolding serve_all
  serve_all-blocked upper [] db v b = b
  serve_all-blocked upper ((now, request) ∷ rest) db v b =
      serve_all-blocked upper rest (serve upper (now, request) db) (ground arith)
        (serve-blocked upper now request db (perform upper now request db) refl (ground arith) b)

  check-not_approved :
      (now : ℕ) (s : DeviceCodeStatus) (u : Option ℕ) (db db' : Db)
      → blocked d db ≡ true
      → check_device_code_status now d db ≡ ok ((s, u), db')
      → s ≢ approved
  unfolding check_device_code_status blocked get_device_code_by_device_code with_device_code
  check-not_approved now s u db db' b h is =
      go (scalar_one_or_none (select (with_device_code d) db.device_codes)) refl
    where
      go :
          (x : Result (Option DeviceCode))
          → scalar_one_or_none (select (with_device_code d) db.device_codes) ≡ x
          → ⊥
      go (ok none) e = ground arith
      go (ok (some r)) e = ground (
        arith,
        one-all (blocks d) (with_device_code d) db.device_codes r,
        one-passes (with_device_code d) db.device_codes r,
      )
      go (err x) e = ground arith

-- While every record of a device code is denied or expired, after any sequence of creations of
-- other device codes, each with its own draws of user codes, approvals, denials, polls,
-- exchanges and cleanups, at any times, some of which may raise, no poll of the device code
-- answers that it is approved.
pub never_approved :
    (upper : String → String) (d : String) (requests : List (ℕ × Request)) (now : ℕ)
    (s : DeviceCodeStatus) (u : Option ℕ) (db polled : Db)
    → blocked d db ≡ true
    → all (λ (x : ℕ × Request). avoids d x.1) requests ≡ true
    → check_device_code_status now d (serve_all upper requests db) ≡ ok ((s, u), polled)
    → s ≢ approved
never_approved upper d requests now s u db polled b v k =
    check-not_approved d now s u (serve_all upper requests db) polled
      (serve_all-blocked d upper requests db v b) k
