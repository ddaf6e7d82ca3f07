-- ===== src/Execution/Trigger.antt =====
-- `execute_trigger` of app/services/trigger_execution_service.py and the handlers of
-- app/routes/webhooks.py. The registry, the runtime, the tokens, the decryption, the providers'
-- own checks of a request and the answer of the usage limit are parameters; the development
-- channel is left out.
use floww_backend.Prelude.{
  ℕ, Bool, true, false, not, ◌&&◌, Option, none, some, List, [], ◌∷◌, String, ltb, ◌==◌, str_eq,
  select, truthy, if◌then◌else◌,
}
use floww_backend.Session.{Result, ok, err, http_exception}
use floww_backend.Execution.History.{
  ExecutionHistory, create_execution_record, update_execution_started,
  update_execution_no_deployment,
}
use floww_backend.Execution.World.{Run, Invocation, return, fail, on_rows, commit, ◌>>=◌, ◌>>◌}

pub record Workflow : Type 0 where
  pub id : ℕ
  pub namespace_id : ℕ
  pub active : Option Bool

pub data WorkflowDeploymentStatus : Type 0 where
  active inactive failed : WorkflowDeploymentStatus

-- `config` of the runtime: the two keys that are read.
pub record Runtime : Type 0 where
  pub id : ℕ
  pub image_uri : Option String
  pub image_hash : Option String

pub record WorkflowDeployment : Type 0 where
  pub id : ℕ
  pub workflow_id : ℕ
  pub runtime : Runtime
  pub user_code : String
  pub status : WorkflowDeploymentStatus
  pub deployed_at : ℕ

pub record Provider : Type 0 where
  pub id : ℕ
  pub namespace_id : ℕ
  pub type : String
  pub alias : String
  pub encrypted_config : String

pub record Trigger : Type 0 where
  pub id : ℕ
  pub workflow : Workflow
  pub provider : Provider
  pub trigger_type : String
  pub input : String

-- The rows that are read only, and the code that is elsewhere.
pub record Setup : Type 0 where
  pub deployments : List WorkflowDeployment
  pub providers : List Provider
  pub triggers : List Trigger
  pub generate_invocation_token : Workflow → String
  pub get_image_digest : String → Result (Option String)
  pub decrypt_config : String → Result String
  pub invoke_trigger : Invocation → Result (Unit {0})
  pub is_cloud : Bool
  pub may_execute : ℕ → List ExecutionHistory → ℕ → Bool
  pub config_key : String → String → String

abbrev pub is_active : WorkflowDeploymentStatus → Bool
is_active active = true
is_active _ = false

-- `active is False`
abbrev pub is_off : Option Bool → Bool
is_off (some false) = true
is_off _ = false

-- `order_by(deployed_at.desc()).limit(1)`
unfoldable pub latest : List WorkflowDeployment → Option WorkflowDeployment
latest [] = none
latest (d ∷ rest) = elim (latest rest) [
  | none ↦ some d
  | some e ↦ if ltb d.deployed_at e.deployed_at then some e else some d
]

unfoldable pub active_of : ℕ → WorkflowDeployment → Bool
active_of workflow_id d = d.workflow_id == workflow_id && is_active d.status

module _ (cfg : Setup) where
  unfoldable pub get_active_deployment : ℕ → Option WorkflowDeployment
  unfolding latest active_of
  get_active_deployment workflow_id = latest (select (active_of workflow_id) cfg.deployments)

  -- `provider_configs[key] = config`: a later provider of the same key replaces the value.
  set_key : String → String → List (String × String) → List (String × String)
  set_key key value [] = (key, value) ∷ []
  set_key key value ((k, v) ∷ rest) =
      if str_eq k key then (k, value) ∷ rest else (k, v) ∷ set_key key value rest

  collect : List (String × String) → List Provider → Result (List (String × String))
  collect configs [] = ok configs
  collect configs (p ∷ rest) = elim (cfg.decrypt_config p.encrypted_config) [
    | err e ↦ err e
    | ok config ↦ collect (set_key (cfg.config_key p.type p.alias) config configs) rest
  ]

  unfoldable pub get_provider_configs : ℕ → Result (List (String × String))
  unfolding collect set_key
  get_provider_configs namespace_id =
      collect [] (select (λ (p : Provider). p.namespace_id == namespace_id) cfg.providers)

  -- The image of a runtime: its URI, or else the digest that the registry has for its
  -- hash; the query of the registry may raise.
  unfoldable pub image_of : Runtime → Result (Option String)
  image_of r = elim (truthy r.image_uri) [
    | some uri ↦ ok (some uri)
    | none ↦ elim r.image_hash [
      | none ↦ ok none
      | some h ↦ elim (cfg.get_image_digest h) [ err e ↦ err e | ok digest ↦ ok (truthy digest) ]
    ]
  ]

  -- The runtime gets the call, and answers or raises.
  unfoldable pub invoke : Invocation → Run (Unit {0})
  invoke i w = (cfg.invoke_trigger i, record w { invoked = i ∷ w.invoked })

  -- A deployment whose execution is committed as started is run, where its image is found.
  unfoldable pub run_deployment : Trigger → String → ℕ → WorkflowDeployment → Run (Option ℕ)
  unfolding image_of get_provider_configs invoke
  run_deployment trigger event_data execution_id deployment = elim (image_of deployment.runtime) [
    | err e ↦ fail e
    | ok none ↦ return none
    | ok (some image) ↦ elim (get_provider_configs trigger.workflow.namespace_id) [
      | err e ↦ fail e
      | ok configs ↦
          invoke (record {
            trigger_id = trigger.id;
            runtime_id = deployment.runtime.id;
            image_digest = image;
            user_code = deployment.user_code;
            payload = record {
              provider_type = trigger.provider.type;
              provider_alias = trigger.provider.alias;
              trigger_type = trigger.trigger_type;
              input = trigger.input;
              event_data = event_data;
              auth_token = cfg.generate_invocation_token trigger.workflow;
              execution_id = execution_id;
              provider_configs = configs;
            };
          })
          >> return (some execution_id)
    ]
  ]

  unfoldable pub give_up : ℕ → ℕ → Run (Option ℕ)
  give_up now execution_id =
      on_rows (update_execution_no_deployment now execution_id) >> commit >> return none

  -- The execution's identifier, or none for Python's None.
  unfoldable pub execute_trigger : ℕ → Trigger → String → ℕ → Run (Option ℕ)
  unfolding get_active_deployment run_deployment give_up
  execute_trigger now trigger event_data execution_id =
      if is_off trigger.workflow.active
      then give_up now execution_id
      else elim (get_active_deployment trigger.workflow.id) [
        | none ↦ give_up now execution_id
        | some deployment ↦
            on_rows (update_execution_started now execution_id deployment.id)
            >> commit
            >> run_deployment trigger event_data execution_id deployment
      ]

  -- The answer of the limit depends on the time, the executions so far and the workflow.
  unfoldable pub check_limit : ℕ → ℕ → Run (Unit {0})
  check_limit now workflow_id w =
      if cfg.is_cloud && not (cfg.may_execute now w.rows.executions workflow_id)
      then fail (http_exception 402 "Execution limit reached") w
      else return tt w

  -- One trigger of a request: the limit, the record and the run.
  unfoldable pub handle_trigger : ℕ → Trigger → String → ℕ → Run (Option ℕ)
  unfolding check_limit execute_trigger
  handle_trigger now trigger event_data new_id = do
    check_limit now trigger.workflow.id
    execution ← on_rows (create_execution_record new_id now trigger.workflow.id trigger.id none)
    execute_trigger now trigger event_data execution.id

  -- The loop of `_handle_provider_webhook` over the matching triggers, each with the identifier of
  -- its new record.
  unfoldable pub handle_triggers : ℕ → String → List (Trigger × ℕ) → Run (List ℕ)
  unfolding handle_trigger
  handle_triggers now event_data [] = return []
  handle_triggers now event_data ((trigger, new_id) ∷ rest) = do
    result ← handle_trigger now trigger event_data new_id
    results ← handle_triggers now event_data rest
    return (elim result [ none ↦ results | some n ↦ n ∷ results ])
