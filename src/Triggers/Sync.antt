-- ===== src/Triggers/Sync.antt =====
-- The plan of `sync_triggers` and its loops, of app/services/trigger_service.py on the rows of `Trigger` and `Provider`. The
-- handlers of the providers are parameters: what they made of a trigger, or that they raised. A set
-- is a list in the order of the dictionary that it comes from, and the input of a trigger is its
-- JSON text with sorted keys; a missing state is the text `null`.
use floww_backend.Prelude.{
  ℕ, ◌+◌, Bool, not, ◌&&◌, ◌||◌, Option, none, some, List, [], ◌∷◌, ◌++◌, String, str_eq, ◌==◌, any,
  select, find, if◌then◌else◌,
}
use floww_backend.Session.{
  Session, Result, ok, err, raise, lift, value_error, integrity_error, scalar_one_or_none, ◌>>=◌,
}
use floww_backend.Table.{consistent, put}

pub record Identity : Type 0 where
  pub provider_type : String
  pub provider_alias : String
  pub trigger_type : String
  pub input : String

pub record Provider : Type 0 where
  pub id : ℕ
  pub namespace_id : ℕ
  pub type : String
  pub alias : String

pub record Trigger : Type 0 where
  pub id : ℕ
  pub workflow_id : ℕ
  pub provider_id : ℕ
  pub trigger_type : String
  pub input : String
  pub state : String

pub record Db : Type 0 where
  pub providers : List Provider
  pub triggers : List Trigger

-- The code of the providers: the state of a trigger that is created, or of one that is refreshed.
pub record Handlers : Type 0 where
  pub create : Provider → Trigger → Result String
  pub refresh : Provider → Trigger → Result String

unfoldable pub same_identity : Identity → Identity → Bool
same_identity a b =
    str_eq a.provider_type b.provider_type
    && str_eq a.provider_alias b.provider_alias
    && str_eq a.trigger_type b.trigger_type
    && str_eq a.input b.input

abbrev pub among : Identity → List Identity → Bool
among i l = any (same_identity i) l

abbrev pub same_trigger : Trigger → Trigger → Bool
same_trigger a b = a.id == b.id

abbrev pub called : ℕ → String → String → Provider → Bool
called namespace_id type alias p =
    p.namespace_id == namespace_id && str_eq p.type type && str_eq p.alias alias

-- The identity of a stored trigger, if `session.get` has its provider.
unfoldable pub identity_of : List Provider → Trigger → Option Identity
identity_of providers t = elim (find (λ (p : Provider). p.id == t.provider_id) providers) [
  | none ↦ none
  | some p ↦ some (record {
    provider_type = p.type;
    provider_alias = p.alias;
    trigger_type = t.trigger_type;
    input = t.input;
  })
]

-- `trigger_map[identity] = trigger`
unfoldable pub set_identity :
    Identity → Trigger → List (Identity × Trigger) → List (Identity × Trigger)
set_identity i t [] = (i, t) ∷ []
set_identity i t ((j, u) ∷ rest) =
    let others = set_identity i t rest in
    if same_identity i j then (j, t) ∷ rest else (j, u) ∷ others

unfoldable pub build_identity_map :
    List Provider → List Trigger → List (Identity × Trigger) → List (Identity × Trigger)
unfolding set_identity
build_identity_map providers [] found = found
build_identity_map providers (t ∷ triggers) found = elim (identity_of providers t) [
  | none ↦ build_identity_map providers triggers found
  | some i ↦ build_identity_map providers triggers (set_identity i t found)
]

-- A trigger whose creation raises is deleted again.
unfoldable pub create_trigger : Handlers → ℕ → ℕ → ℕ → Identity → Session Db Unit
create_trigger cfg new_id workflow_id namespace_id i = do
  found ← λ db.
      lift
        (scalar_one_or_none
          (select (called namespace_id i.provider_type i.provider_alias) db.providers))
        db
  elim found [
    | none ↦ raise (value_error "Provider not found")
    | some p ↦ λ db.
        (let new : Trigger = record {
          id = new_id;
          workflow_id = workflow_id;
          provider_id = p.id;
          trigger_type = i.trigger_type;
          input = i.input;
          state = "{}";
        } in
          if not (consistent same_trigger (db.triggers ++ new ∷ []))
          then err integrity_error
          else elim (cfg.create p new) [
            | err e ↦ err e
            | ok made ↦
                ok (tt, record db { triggers = db.triggers ++ record new { state = made } ∷ [] })
          ])
  ]

-- The loop over the identities to add, with those that failed.
unfoldable pub create_triggers : Handlers → ℕ → ℕ → ℕ → List Identity → Db → List Identity × Db
unfolding create_trigger
create_triggers cfg new_id workflow_id namespace_id [] db = ([], db)
create_triggers cfg new_id workflow_id namespace_id (i ∷ rest) db =
    elim (create_trigger cfg new_id workflow_id namespace_id i db) [
      | ok (_, after) ↦ create_triggers cfg (new_id + 1) workflow_id namespace_id rest after
      | err _ ↦
          (let (errors, after) =
              create_triggers cfg (new_id + 1) workflow_id namespace_id rest db in
            (i ∷ errors, after))
    ]

unfoldable pub delete_triggers : List (Identity × Trigger) → List Trigger → List Trigger
delete_triggers [] rows = rows
delete_triggers ((i, t) ∷ rest) rows =
    delete_triggers rest (select (λ x. not (same_trigger t x)) rows)

-- A refresh that raises is logged, and one of a trigger without state or provider does nothing.
unfoldable pub refreshed : Handlers → List Provider → Trigger → Trigger
refreshed cfg providers t =
    if str_eq t.state "{}" || str_eq t.state "null"
    then t
    else elim (find (λ (p : Provider). p.id == t.provider_id) providers) [
      | none ↦ t
      | some p ↦ elim (cfg.refresh p t) [ err _ ↦ t | ok made ↦ record t { state = made } ]
    ]

unfoldable pub refresh_triggers :
    Handlers → List Provider → List (Identity × Trigger) → List Trigger → List Trigger
unfolding refreshed
refresh_triggers cfg providers [] rows = rows
refresh_triggers cfg providers ((i, t) ∷ rest) rows =
    refresh_triggers cfg providers rest (put same_trigger (refreshed cfg providers t) rows)

-- The keys of `new_map`.
unfoldable pub distinct : List Identity → List Identity
distinct [] = []
distinct (i ∷ l) = i ∷ select (λ j. not (same_identity i j)) (distinct l)

abbrev pub existing_map : ℕ → Db → List (Identity × Trigger)
existing_map workflow_id db =
    build_identity_map db.providers
      (select (λ (t : Trigger). t.workflow_id == workflow_id) db.triggers) []

abbrev pub to_remove :
    List Identity → List Identity → List (Identity × Trigger) → List (Identity × Trigger)
to_remove new deployed existing =
    select (λ (e : Identity × Trigger). not (among e.0 new) && not (among e.0 deployed)) existing

abbrev pub to_keep : List Identity → List (Identity × Trigger) → List (Identity × Trigger)
to_keep new existing = select (λ (e : Identity × Trigger). among e.0 new) existing

abbrev pub to_add : List Identity → List (Identity × Trigger) → List Identity
to_add new existing =
    select (λ i. not (any (λ (e : Identity × Trigger). same_identity i e.0) existing))
      (distinct new)

-- The plan of a sync and its three loops, with the identities that could not be created.
unfoldable pub apply_plan :
    Handlers → ℕ → ℕ → ℕ → List Identity → List Identity → Db → List Identity × Db
unfolding distinct
apply_plan cfg new_id workflow_id namespace_id new deployed db =
    let existing = existing_map workflow_id db in
    let (errors, after) =
      create_triggers cfg new_id workflow_id namespace_id (to_add new existing)
        (record db { triggers = delete_triggers (to_remove new deployed existing) db.triggers }) in
    (
      errors,
      record after {
        triggers = refresh_triggers cfg after.providers (to_keep new existing) after.triggers;
      },
    )
