-- ===== src/Execution/World.antt =====
-- What the handlers of app/routes/webhooks.py see: their session's rows, the rows that are
-- committed, and the calls that the runtime has got. A handler that raises keeps what it committed
-- before, as its session has no enclosing transaction.
use floww_backend.Prelude.{◌≡◌, ap, ℕ, List, String}
use floww_backend.Session.{Session, Result, Error, ok, err}
use floww_backend.Execution.History.{Db}

-- `build_trigger_payload`; the event's data and the trigger's input are JSON texts.
pub record Payload : Type 0 where
  pub provider_type : String
  pub provider_alias : String
  pub trigger_type : String
  pub input : String
  pub event_data : String
  pub auth_token : String
  pub execution_id : ℕ
  pub provider_configs : List (String × String)

-- The arguments of `invoke_trigger`.
pub record Invocation : Type 0 where
  pub trigger_id : ℕ
  pub runtime_id : ℕ
  pub image_digest : String
  pub user_code : String
  pub payload : Payload

pub record World : Type 0 where
  pub rows : Db
  pub committed : Db
  pub invoked : List Invocation

abbrev pub Run : Type 0 → Type 0
Run A = World → Result A × World

module _ {A : Type 0} where
  abbrev pub return : A → Run A
  return a w = (ok a, w)

  abbrev pub fail : Error → Run A
  fail e w = (err e, w)

-- The rest of a handler, unless the step before it raised.
abbrev pub continue : {A B : Type 0} → Result A × World → (A → Run B) → Result B × World
continue (ok a, w) f = f a w
continue (err e, w) f = (err e, w)

infixl 5 ◌>>=◌ ◌>>◌
abbrev pub ◌>>=◌ : {A B : Type 0} → Run A → (A → Run B) → Run B
◌>>=◌ m f w = continue (m w) f

abbrev pub ◌>>◌ : {A B : Type 0} → Run A → Run B → Run B
m >> k = m >>= λ _. k

-- A call of a service on the session's rows; where it raises it has changed none.
abbrev pub on_rows : {A : Type 0} → Session Db A → Run A
on_rows m w = elim (m w.rows) [
  | ok (a, rows) ↦ (ok a, record w { rows = rows })
  | err e ↦ (err e, w)
]

abbrev pub commit : Run Unit
commit w = (ok tt, record w { committed = w.rows })

-- A step that returned, and one that raised.
pub >>=-ok :
    {A B : Type 0} (m : Run A) (f : A → Run B) (w after : World) (a : A)
    → m w ≡ (ok a, after)
    → (m >>= f) w ≡ f a after
>>=-ok m f w after a e = ap (λ r. continue r f) e

pub >>=-err :
    {A B : Type 0} (m : Run A) (f : A → Run B) (w after : World) (x : Error)
    → m w ≡ (err x, after)
    → (m >>= f) w ≡ (err x, after)
>>=-err m f w after x e = ap (λ r. continue r f) e
