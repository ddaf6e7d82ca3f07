-- ===== src/Device/Approval.antt =====
-- The approval of a device in app/services/device_code_service.py, and the polls that follow it.
use floww_backend.Prelude.{
  ℕ, ◌≤◌, ◌≡◌, inl, inr, Bool, Bool-cases, true, false, some, List, [], ◌∷◌, String, str_eq_comm,
  same_text_self, find, find_sound, arith, eq_iff,
}
use floww_backend.Session.{ok}
use floww_backend.Table.{consistent, put}
use floww_backend.Table.Laws.{PicksUnique, scalar_one_or_none-select, consistent-put}
use floww_backend.Table.Updates.{found-fits, fits_mono, find-put_found, clear-found}
use floww_backend.Device.Codes.{
  DeviceCode, Db, pending, approved, clash_code, same_code, with_user_code, with_device_code, save,
  get_device_code_by_user_code, approve_device_code, get_device_code_by_device_code,
  check_device_code_status,
}

pub clash_code_comm : (x y : DeviceCode) → clash_code x y ≡ clash_code y x
unfolding clash_code
clash_code_comm x y =
    ground (arith, str_eq_comm x.device_code y.device_code, str_eq_comm x.user_code y.user_code)

pub same_code_self : (x : DeviceCode) → same_code x x ≡ true
unfolding same_code
same_code_self x = ground arith

same_code-clash :
    (r x y : DeviceCode) → same_code r x ≡ true → same_code r y ≡ true → clash_code x y ≡ true
unfolding same_code clash_code
same_code-clash r x y h k = ground arith

pub with_user_code-PicksUnique : (c : String) → PicksUnique clash_code (with_user_code c)
unfolding with_user_code clash_code
with_user_code-PicksUnique c x y h k =
    ground (arith, eq_iff x.user_code c, eq_iff y.user_code c, eq_iff x.user_code y.user_code)

pub with_device_code-PicksUnique : (c : String) → PicksUnique clash_code (with_device_code c)
unfolding with_device_code clash_code
with_device_code-PicksUnique c x y h k =
    ground
      (arith, eq_iff x.device_code c, eq_iff y.device_code c, eq_iff x.device_code y.device_code)

-- A row that one query finds is found by every query on a unique column that it passes.
find-other :
    (p q : DeviceCode → Bool) (rows : List DeviceCode) (r : DeviceCode)
    → PicksUnique clash_code q
    → consistent clash_code rows ≡ true
    → find p rows ≡ some r
    → q r ≡ true
    → find q rows ≡ some r
unfolding consistent
find-other p q [] r u c e h = absurd (ground arith)
find-other p q (x ∷ rows) r u c e h = elim (Bool-cases (p x)) [
  | inl k ↦ ground arith
  | inr k ↦ ground (
    arith,
    find-other p q rows r u,
    clear-found clash_code same_code clash_code_comm same_code_self p x r rows,
    u x r,
  )
]

module _ (upper : String → String) (now user_id : ℕ) (user_code : String) (r : DeviceCode) (db : Db)
    (valid : consistent clash_code db.device_codes ≡ true)
    (found : find (with_user_code (upper user_code)) db.device_codes ≡ some r)
    (in_time : now ≤ r.expires_at) (waiting : r.status ≡ pending) where
  abbrev pub signed : DeviceCode
  signed = record r { status = approved; user_id = some user_id }

  abbrev pub after : Db
  after = record db { device_codes = put same_code signed db.device_codes }

  pub approve_run : approve_device_code upper now user_code user_id db ≡ ok (true, after)
  unfolding approve_device_code get_device_code_by_user_code save
  approve_run = ground (
    arith,
    scalar_one_or_none-select clash_code (with_user_code (upper user_code))
        (with_user_code-PicksUnique (upper user_code)) db.device_codes valid,
  )

  pub after-consistent : consistent clash_code after.device_codes ≡ true
  after-consistent =
      consistent-put clash_code same_code clash_code_comm same_code-clash signed db.device_codes
        valid
        (fits_mono clash_code same_code signed r db.device_codes (λ x h. unfold same_code in h)
          (λ x h. unfold clash_code in h)
          (found-fits clash_code same_code clash_code_comm same_code_self
            (with_user_code (upper user_code)) r db.device_codes valid found))

  own_code : with_device_code r.device_code r ≡ true
  unfolding with_device_code
  own_code = same_text_self r.device_code

  user_found : find (with_user_code (upper user_code)) after.device_codes ≡ some signed
  user_found =
      find-put_found clash_code same_code (with_user_code (upper user_code)) signed r
        db.device_codes (same_code-clash signed) clash_code_comm same_code_self valid found
        (unfold same_code in same_code_self r)
        (unfold with_user_code in
          find_sound (with_user_code (upper user_code)) db.device_codes r found)

  pub device_found : find (with_device_code r.device_code) after.device_codes ≡ some signed
  device_found =
      find-put_found clash_code same_code (with_device_code r.device_code) signed r db.device_codes
        (same_code-clash signed) clash_code_comm same_code_self valid
        (find-other (with_user_code (upper user_code)) (with_device_code r.device_code)
          db.device_codes r (with_device_code-PicksUnique r.device_code) valid found own_code)
        (unfold same_code in same_code_self r) (unfold with_device_code in own_code)

  -- On a table with unique codes, approving the pending code of a user code in time succeeds;
  -- afterwards a poll of its device code at any time answers that it is approved by that user
  -- and changes nothing, and a second approval at the same time, for any user, fails and changes
  -- nothing.
  pub approve_then_check :
      (approve_device_code upper now user_code user_id db ≡ ok (true, after))
      × ((later : ℕ)
          → check_device_code_status later r.device_code after
            ≡ ok ((approved, some user_id), after))
      × ((other : ℕ) → approve_device_code upper now user_code other after ≡ ok (false, after))
  unfolding check_device_code_status get_device_code_by_device_code approve_device_code
      get_device_code_by_user_code
  approve_then_check = (
    approve_run,
    (λ later. ground (
      arith,
      device_found,
      scalar_one_or_none-select clash_code (with_device_code r.device_code)
          (with_device_code-PicksUnique r.device_code) after.device_codes after-consistent,
    )),
    (λ other. ground (
      arith,
      user_found,
      scalar_one_or_none-select clash_code (with_user_code (upper user_code))
          (with_user_code-PicksUnique (upper user_code)) after.device_codes after-consistent,
    )),
  )
