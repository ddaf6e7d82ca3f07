-- ===== src/Triggers/Requests.antt =====
-- `sync_triggers` as a whole, in the transaction of its endpoint (app/routes/dev.py): the providers
-- that need no setup are created, the triggers of the active deployment are read, the plan is
-- applied, and triggers that could not be created refuse the request.
use floww_backend.Prelude.{
  ℕ, ◌+◌, Bool, not, ◌&&◌, Option, none, some, List, [], ◌∷◌, ◌++◌, String, str_eq, truthy, ◌==◌,
  ltb, select, if◌then◌else◌,
}
use floww_backend.Session.{
  Session, ok, err, pure, http_exception, integrity_error, scalar_one_or_none, ◌>>◌,
}
use floww_backend.Table.{consistent}
use floww_backend.Execution.Trigger.{WorkflowDeploymentStatus, is_active}
use floww_backend.Triggers.Sync.{Identity, Provider, Db, Handlers, called, apply_plan}

pub record TriggerMetadata : Type 0 where
  pub provider_type : Option String
  pub provider_alias : Option String
  pub trigger_type : String
  pub input : String

pub record WorkflowDeployment : Type 0 where
  pub workflow_id : ℕ
  pub status : WorkflowDeploymentStatus
  pub deployed_at : ℕ
  pub trigger_definitions : List Identity

-- The number of setup steps of a type of provider, if the type is known.
pub record Setup : Type 0 where
  pub handlers : Handlers
  pub setup_steps : String → Option ℕ
  pub deployments : List WorkflowDeployment

abbrev pub same_provider : Provider → Provider → Bool
same_provider a b = a.id == b.id

-- The metadata that name a type and an alias of a provider.
unfoldable pub wanted : List TriggerMetadata → List Identity
wanted [] = []
wanted (t ∷ rest) = elim (truthy t.provider_type) [
  | none ↦ wanted rest
  | some type ↦ elim (truthy t.provider_alias) [
    | none ↦ wanted rest
    | some alias ↦
        record {
          provider_type = type;
          provider_alias = alias;
          trigger_type = t.trigger_type;
          input = t.input;
        }
        ∷ wanted rest
  ]
]

-- The set of the pairs of a type and an alias.
unfoldable pub unique_providers : List Identity → List (String × String)
unique_providers [] = []
unique_providers (i ∷ rest) =
    (i.provider_type, i.provider_alias)
    ∷ select
        (λ (k : String × String). not (str_eq i.provider_type k.0 && str_eq i.provider_alias k.1))
        (unique_providers rest)

unfoldable pub newest : List WorkflowDeployment → Option WorkflowDeployment
newest [] = none
newest (d ∷ rest) = elim (newest rest) [
  | none ↦ some d
  | some e ↦ if ltb d.deployed_at e.deployed_at then some e else some d
]

unfoldable pub deployed_identities : List WorkflowDeployment → ℕ → List Identity
unfolding newest
deployed_identities deployments workflow_id =
    elim (newest (
      select (λ (d : WorkflowDeployment). d.workflow_id == workflow_id && is_active d.status)
        deployments)) [ none ↦ [] | some d ↦ d.trigger_definitions ]

-- A provider that is missing is created, where its type has no setup steps.
unfoldable pub missing_provider : Setup → ℕ → ℕ → String → String → Session Db (Unit {0})
missing_provider cfg new_id namespace_id type alias db = elim (cfg.setup_steps type) [
  | none ↦ ok (tt, db)
  | some steps ↦
      if not (steps == 0)
      then ok (tt, db)
      else (let rows =
            db.providers
            ++ record { id = new_id; namespace_id = namespace_id; type = type; alias = alias }
              ∷ [] in
          if consistent same_provider rows
          then ok (tt, record db { providers = rows })
          else err integrity_error)
]

unfoldable pub ensure_provider_exists : Setup → ℕ → ℕ → String → String → Session Db (Unit {0})
unfolding missing_provider
ensure_provider_exists cfg new_id namespace_id type alias db =
    elim (scalar_one_or_none (select (called namespace_id type alias) db.providers)) [
      | err e ↦ err e
      | ok (some _) ↦ ok (tt, db)
      | ok none ↦ missing_provider cfg new_id namespace_id type alias db
    ]

unfoldable pub ensure_providers : Setup → ℕ → ℕ → List (String × String) → Session Db (Unit {0})
unfolding ensure_provider_exists
ensure_providers cfg new_id namespace_id [] = pure tt
ensure_providers cfg new_id namespace_id ((type, alias) ∷ rest) =
    ensure_provider_exists cfg new_id namespace_id type alias
    >> ensure_providers cfg (new_id + 1) namespace_id rest

-- The builtin provider takes the first new identifier.
unfoldable pub sync_triggers : Setup → ℕ → ℕ → ℕ → List TriggerMetadata → Session Db (Unit {0})
unfolding wanted unique_providers deployed_identities ensure_providers
sync_triggers cfg new_id workflow_id namespace_id metadata =
    ensure_providers cfg new_id namespace_id
      (("builtin", "default") ∷ unique_providers (wanted metadata))
    >> λ db.
        (let (errors, after) =
            apply_plan cfg.handlers new_id workflow_id namespace_id (wanted metadata)
              (deployed_identities cfg.deployments workflow_id) db in
          elim errors [
            | [] ↦ ok (tt, after)
            | _ ∷ _ ↦ err (http_exception 400 "Failed to create one or more triggers")
          ])

-- The tables after the transaction of the request.
unfoldable pub synced : Setup → ℕ → ℕ → ℕ → List TriggerMetadata → Db → Db
unfolding sync_triggers
synced cfg new_id workflow_id namespace_id metadata db =
    elim (sync_triggers cfg new_id workflow_id namespace_id metadata db) [
      | ok (_, after) ↦ after
      | err _ ↦ db
    ]
