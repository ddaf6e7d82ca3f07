-- ===== src/Device/Tests.antt =====
-- Runs of the device authorization on one or two codes.
use floww_backend.Prelude.{
  arith, ℕ, ◌≡◌, ◌≢◌, refl, true, false, none, some, String, List, [], ◌∷◌, find,
}
use floww_backend.Session.{ok, scalar_one_or_none}
use floww_backend.Table.{consistent, put}
use floww_backend.Device.Codes.{
  pending, approved, denied, DeviceCode, Db, clash_code, same_code, with_user_code,
  with_device_code, get_device_code_by_user_code, approve_device_code, create_device_authorization,
  unique_user_code, insert_code, get_device_code_by_device_code, check_device_code_status,
}
use floww_backend.Device.Requests.{
  Request, create, approve, poll, blocked, perform, serve, serve_all,
}
use floww_backend.Device.Blocking.{never_approved}
use floww_backend.Device.Approval.{approve_then_check}

-- The codes of the tests are in upper case already.
abbrev same : String → String
same text = text

abbrev asked : DeviceCode
asked = record {
  id = 1;
  device_code = "device";
  user_code = "ABCD";
  user_id = none;
  status = pending;
  expires_at = 900;
}

abbrev table : Db
table = record { device_codes = asked ∷ [] }

table-consistent : consistent clash_code table.device_codes ≡ true
unfolding consistent
table-consistent = refl

asked_found : find (with_user_code "ABCD") table.device_codes ≡ some asked
unfolding with_user_code
asked_found = refl

abbrev granted : Db
granted = record table {
  device_codes =
      put same_code (record asked { status = approved; user_id = some 7 }) table.device_codes;
}

approve_then_check_example :
    (approve_device_code same 30 "ABCD" 7 table ≡ ok (true, granted))
    × ((later : ℕ)
        → check_device_code_status later "device" granted ≡ ok ((approved, some 7), granted))
    × ((other : ℕ) → approve_device_code same 30 "ABCD" other granted ≡ ok (false, granted))
approve_then_check_example =
    approve_then_check same 30 7 "ABCD" asked table table-consistent asked_found (omega arith) refl

-- A denied code that somebody tries to approve and that is polled.
abbrev refused : Db
refused = record { device_codes = record asked { status = denied } ∷ [] }

abbrev codes : ℕ → String
codes n = "WXYZ"

abbrev requests : List (ℕ × Request)
requests = (40, approve "ABCD" 7) ∷ (41, poll "device") ∷ (42, create codes "other" 2) ∷ []

abbrev asked_again : Db
asked_again = record {
  device_codes =
      record asked { status = denied }
      ∷ record {
        id = 2;
        device_code = "other";
        user_code = "WXYZ";
        user_id = none;
        status = pending;
        expires_at = 900_000_042;
      }
      ∷ [];
}

refused-blocked : blocked "device" refused ≡ true
unfolding blocked
refused-blocked = refl

still_denied :
    check_device_code_status 50 "device" (serve_all same requests refused)
    ≡ ok ((denied, none), asked_again)
unfolding serve_all serve perform approve_device_code get_device_code_by_user_code
    create_device_authorization unique_user_code insert_code clash_code consistent
    check_device_code_status get_device_code_by_device_code with_user_code with_device_code
    scalar_one_or_none
still_denied = refl

never_approved_example : denied ≢ approved
never_approved_example =
    never_approved same "device" requests 50 denied none refused asked_again refused-blocked refl
      still_denied
