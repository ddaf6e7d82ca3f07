-- ===== src/Device/Requests.antt =====
-- Sequences of calls of app/services/device_code_service.py, and the records that may not be approved
-- any more.
use floww_backend.Prelude.{
  ℕ, Bool, true, false, not, List, [], ◌∷◌, String, str_eq, all, if◌then◌else◌,
}
use floww_backend.Session.{Session, ok, err, pure, ◌>>◌}
use floww_backend.Device.Codes.{
  DeviceCodeStatus, denied, expired, DeviceCode, Db, create_device_authorization,
  approve_device_code, deny_device_code, check_device_code_status, delete_device_code,
  cleanup_expired_device_codes,
}

-- A call of the service; a creation comes with what the generator of user codes returns in it.
pub data Request : Type 0 where
  create : (ℕ → String) → String → ℕ → Request
  approve : String → ℕ → Request
  deny poll exchange : String → Request
  cleanup : Request

abbrev pub ends : DeviceCodeStatus → Bool
ends denied = true
ends expired = true
ends _ = false

-- Every record of the device code is denied or expired.
abbrev pub blocks : String → DeviceCode → Bool
blocks d r = if str_eq r.device_code d then ends r.status else true

unfoldable pub blocked : String → Db → Bool
blocked d db = all (blocks d) db.device_codes

-- A new code is another one.
abbrev pub avoids : String → Request → Bool
avoids d (create generated device_code new_id) = not (str_eq device_code d)
avoids d _ = true

module _ (upper : String → String) where
  unfoldable pub perform : ℕ → Request → Session Db Unit
  perform now (create generated device_code new_id) =
      create_device_authorization generated device_code new_id now >> pure tt
  perform now (approve user_code user_id) =
      approve_device_code upper now user_code user_id >> pure tt
  perform now (deny user_code) = deny_device_code upper user_code >> pure tt
  perform now (poll device_code) = check_device_code_status now device_code >> pure tt
  perform now (exchange device_code) = delete_device_code device_code
  perform now cleanup = cleanup_expired_device_codes now >> pure tt

  -- The records after a call. One that raises does so before its commit, and leaves them alone.
  unfoldable pub serve : ℕ × Request → Db → Db
  unfolding perform
  serve (now, request) db = elim (perform now request db) [ ok (_, after) ↦ after | err _ ↦ db ]

  unfoldable pub serve_all : List (ℕ × Request) → Db → Db
  serve_all [] db = db
  serve_all (call ∷ calls) db = serve_all calls (serve call db)
