-- ===== src/Device/Codes.antt =====
-- The operations of app/services/device_code_service.py on the rows of `DeviceCode` in
-- app/models.py. `upper` is Python's `str.upper`, and `generated n` is what the n-th call of
-- `generate_user_code` returns.
use floww_backend.Prelude.{
  ℕ, zero, suc, ◌+◌, Bool, true, false, not, ◌&&◌, ◌||◌, Option, none, some, List, [], ◌∷◌, ◌++◌,
  String, ltb, ◌==◌, str_eq, is_some, length, select, if◌then◌else◌,
}
use floww_backend.Session.{
  Session, pure, raise, lift, ok, err, runtime_error, integrity_error, scalar_one_or_none, ◌>>=◌,
  ◌>>◌,
}
use floww_backend.Table.{consistent, put}

pub data DeviceCodeStatus : Type 0 where
  pending approved denied expired : DeviceCodeStatus

pub record DeviceCode : Type 0 where
  pub id : ℕ
  pub device_code : String
  pub user_code : String
  pub user_id : Option ℕ
  pub status : DeviceCodeStatus
  pub expires_at : ℕ

pub record Db : Type 0 where
  pub device_codes : List DeviceCode

-- The primary key and the unique columns.
unfoldable pub clash_code : DeviceCode → DeviceCode → Bool
clash_code a b =
    a.id == b.id || (str_eq a.device_code b.device_code || str_eq a.user_code b.user_code)

unfoldable pub same_code : DeviceCode → DeviceCode → Bool
same_code a b = a.id == b.id

abbrev pub is_pending : DeviceCodeStatus → Bool
is_pending pending = true
is_pending _ = false

-- `DEVICE_CODE_EXPIRY_SECONDS`, in microseconds.
abbrev pub device_code_expiry : ℕ
device_code_expiry = 900_000_000

unfoldable pub with_user_code : String → DeviceCode → Bool
with_user_code user_code r = str_eq r.user_code user_code

unfoldable pub with_device_code : String → DeviceCode → Bool
with_device_code device_code r = str_eq r.device_code device_code

abbrev pub query : (DeviceCode → Bool) → Session Db (Option DeviceCode)
query p db = lift (scalar_one_or_none (select p db.device_codes)) db

-- A changed record and the commit.
unfoldable pub save : DeviceCode → Session Db Unit
save r db = ok (tt, record db { device_codes = put same_code r db.device_codes })

-- The loop over attempts: the number of attempts left, and the calls of the generator so far.
unfoldable pub unique_user_code : (ℕ → String) → ℕ → ℕ → Session Db String
unique_user_code generated zero n =
    raise (runtime_error "Failed to generate unique user code after multiple attempts")
unique_user_code generated (suc attempts) n = do
  found ← query (with_user_code (generated n))
  if is_some found then unique_user_code generated attempts (n + 1) else pure (generated n)

unfoldable pub insert_code : DeviceCode → Session Db Unit
insert_code r db =
    let rows = db.device_codes ++ r ∷ [] in
    if consistent clash_code rows
    then ok (tt, record db { device_codes = rows })
    else err integrity_error

unfoldable pub create_device_authorization :
    (ℕ → String) → String → ℕ → ℕ → Session Db (String × String)
unfolding unique_user_code insert_code
create_device_authorization generated device_code new_id now = do
  user_code ← unique_user_code generated 10 0
  insert_code (record {
    id = new_id;
    device_code = device_code;
    user_code = user_code;
    user_id = none;
    status = pending;
    expires_at = now + device_code_expiry;
  })
  pure (device_code, user_code)

module _ (upper : String → String) where
  unfoldable pub get_device_code_by_user_code : String → Session Db (Option DeviceCode)
  get_device_code_by_user_code user_code = query (with_user_code (upper user_code))

  unfoldable pub approve_device_code : ℕ → String → ℕ → Session Db Bool
  unfolding get_device_code_by_user_code save
  approve_device_code now user_code user_id = do
    found ← get_device_code_by_user_code user_code
    elim found [
      | none ↦ pure false
      | some r ↦
          if ltb r.expires_at now
          then (do save (record r { status = expired }); pure false)
          else if not (is_pending r.status)
          then pure false
          else (do save (record r { status = approved; user_id = some user_id }); pure true)
    ]

  unfoldable pub deny_device_code : String → Session Db Bool
  unfolding get_device_code_by_user_code save
  deny_device_code user_code = do
    found ← get_device_code_by_user_code user_code
    elim found [ none ↦ pure false | some r ↦ do save (record r { status = denied }); pure true ]

unfoldable pub get_device_code_by_device_code : String → Session Db (Option DeviceCode)
get_device_code_by_device_code device_code = query (with_device_code device_code)

unfoldable pub check_device_code_status : ℕ → String → Session Db (DeviceCodeStatus × Option ℕ)
unfolding get_device_code_by_device_code save
check_device_code_status now device_code = do
  found ← get_device_code_by_device_code device_code
  elim found [
    | none ↦ pure (expired, none)
    | some r ↦
        if ltb r.expires_at now && is_pending r.status
        then (do save (record r { status = expired }); pure (expired, none))
        else pure (r.status, r.user_id)
  ]

unfoldable pub delete_device_code : String → Session Db Unit
unfolding get_device_code_by_device_code
delete_device_code device_code = do
  found ← get_device_code_by_device_code device_code
  elim found [
    | none ↦ pure tt
    | some r ↦ λ db.
        ok (tt, record db { device_codes = select (λ x. not (same_code r x)) db.device_codes })
  ]

-- The records that have expired are deleted, and counted.
unfoldable pub cleanup_expired_device_codes : ℕ → Session Db ℕ
cleanup_expired_device_codes now db = ok (
  length (select (λ (r : DeviceCode). ltb r.expires_at now) db.device_codes),
  record db {
    device_codes = select (λ (r : DeviceCode). not (ltb r.expires_at now)) db.device_codes;
  },
)
