-- ===== src/Execution/Outcomes.antt =====
-- What one trigger of a request in app/routes/webhooks.py leads to.
use floww_backend.Prelude.{
  ℕ, ◌≡◌, refl, ◌∙◌, Bool, true, false, not, ◌&&◌, Option, none, some, List, [], ◌∷◌, ◌++◌, String,
  ==_refl, select, if◌then◌else◌, arith,
}
use floww_backend.Session.{Result, ok, err, http_exception, scalar_one}
use floww_backend.Table.{consistent, clear, put}
use floww_backend.Table.Laws.{consistent-insert}
use floww_backend.Billing.Limits.{received, started, no_deployment}
use floww_backend.Execution.History.{
  ExecutionHistory, Db, same_execution, with_id, query, create_execution_record,
  update_execution_started, update_execution_no_deployment,
}
use floww_backend.Execution.World.{World, Run, on_rows, ◌>>=◌, ◌>>◌, >>=-ok, >>=-err}
use floww_backend.Execution.Trigger.{
  Setup, Trigger, WorkflowDeployment, is_off, get_active_deployment, image_of, run_deployment,
  give_up, execute_trigger, check_limit, handle_trigger,
}

pub same_comm : (x y : ExecutionHistory) → same_execution x y ≡ same_execution y x
same_comm x y = ground arith

-- The record of a new execution.
abbrev pub new_execution : ℕ → ℕ → Trigger → ExecutionHistory
new_execution new_id now trigger = record {
  id = new_id;
  workflow_id = trigger.workflow.id;
  trigger_id = some trigger.id;
  triggered_by_user_id = none;
  deployment_id = none;
  status = received;
  received_at = now;
  started_at = none;
  completed_at = none;
  duration_ms = none;
  error_message = none;
}

-- The record of an execution that has no deployment, and of one that is started on a deployment.
abbrev pub unserved : ℕ → ℕ → Trigger → ExecutionHistory
unserved new_id now trigger = record (new_execution new_id now trigger) {
  status = no_deployment;
  completed_at = some now;
}

abbrev pub running : ℕ → ℕ → Trigger → ℕ → ExecutionHistory
running new_id now trigger deployment_id = record (new_execution new_id now trigger) {
  status = started;
  started_at = some now;
  deployment_id = some deployment_id;
}

-- The world in which a further execution is committed.
abbrev pub with_execution : ExecutionHistory → World → World
with_execution e w = record w {
  rows = record w.rows { executions = w.rows.executions ++ e ∷ [] };
  committed = record w.rows { executions = w.rows.executions ++ e ∷ [] };
}

module _ (e f : ExecutionHistory) (same : f.id ≡ e.id) where
  select-last :
      (rows : List ExecutionHistory)
      → clear same_execution e rows ≡ true
      → select (with_id e.id) (rows ++ e ∷ []) ≡ e ∷ []
  select-last [] c = ground (arith, ==_refl e.id)
  select-last (x ∷ rows) c = ground (arith, select-last rows)

  put-last :
      (rows : List ExecutionHistory)
      → clear same_execution e rows ≡ true
      → put same_execution f (rows ++ e ∷ []) ≡ rows ++ f ∷ []
  unfolding put
  put-last [] c = ground (arith, ==_refl e.id)
  put-last (x ∷ rows) c = ground (arith, put-last rows)

module _ (cfg : Setup) (now : ℕ) (trigger : Trigger) (event_data : String) (new_id : ℕ) where
  abbrev pub over_limit : World → Bool
  over_limit w = cfg.is_cloud && not (cfg.may_execute now w.rows.executions trigger.workflow.id)

  abbrev chosen : Option WorkflowDeployment
  chosen =
      if is_off trigger.workflow.active then none else get_active_deployment cfg trigger.workflow.id

  -- Without a deployment the execution is recorded as such; else it is recorded as started, and the
  -- deployment is run.
  abbrev served : World → Option WorkflowDeployment → Result (Option ℕ) × World
  served w none = (ok none, with_execution (unserved new_id now trigger) w)
  served w (some d) =
      run_deployment cfg trigger event_data new_id d
        (with_execution (running new_id now trigger d.id) w)

  -- Over the limit nothing is recorded.
  unfoldable pub outcome : World → Result (Option ℕ) × World
  outcome w =
      if over_limit w
      then (err (http_exception 402 "Execution limit reached"), w)
      else served w chosen

  module _ (w : World) (unique : consistent same_execution w.rows.executions ≡ true)
      (new : clear same_execution (new_execution new_id now trigger) w.rows.executions ≡ true) where
    abbrev created : Db
    created = record w.rows {
      executions = w.rows.executions ++ new_execution new_id now trigger ∷ [];
    }

    create_run :
        create_execution_record new_id now trigger.workflow.id trigger.id none w.rows
        ≡ ok (new_execution new_id now trigger, created)
    unfolding create_execution_record
    create_run =
        rw
          (
            consistent-insert same_execution same_comm (new_execution new_id now trigger)
                w.rows.executions unique,
            new,
          )
          refl

    query_run : query new_id created ≡ ok (new_execution new_id now trigger, created)
    unfolding query scalar_one
    query_run =
        rw
          (select-last (new_execution new_id now trigger) (new_execution new_id now trigger) refl
            w.rows.executions new)
          refl

    started_run :
        (d : ℕ)
        → update_execution_started now new_id d created
          ≡ ok (
            tt,
            record w.rows { executions = w.rows.executions ++ running new_id now trigger d ∷ [] },
          )
    unfolding update_execution_started
    started_run d = ground (
      arith,
      query_run,
      put-last (new_execution new_id now trigger) (running new_id now trigger d) refl
          w.rows.executions new,
    )

    given_up_run :
        update_execution_no_deployment now new_id created
        ≡ ok (
          tt,
          record w.rows { executions = w.rows.executions ++ unserved new_id now trigger ∷ [] },
        )
    unfolding update_execution_no_deployment
    given_up_run = ground (
      arith,
      query_run,
      put-last (new_execution new_id now trigger) (unserved new_id now trigger) refl
          w.rows.executions new,
    )

    abbrev opened : World
    opened = record w { rows = created }

    give_up_run :
        give_up cfg now new_id opened ≡ (ok none, with_execution (unserved new_id now trigger) w)
    unfolding give_up
    give_up_run = rw (give_up, ◌>>◌, ◌>>=◌, ◌>>◌, ◌>>=◌, on_rows, given_up_run) refl

    execute_run : execute_trigger cfg now trigger event_data new_id opened ≡ served w chosen
    unfolding execute_trigger
    execute_run =
        go (is_off trigger.workflow.active) (get_active_deployment cfg trigger.workflow.id) refl
          refl
      where
        go :
            (b : Bool) (o : Option WorkflowDeployment)
            → is_off trigger.workflow.active ≡ b
            → get_active_deployment cfg trigger.workflow.id ≡ o
            → execute_trigger cfg now trigger event_data new_id opened ≡ served w chosen
        go true o h k = rw (execute_trigger, h) give_up_run
        go false none h k = rw (execute_trigger, h, k) give_up_run
        go false (some d) h k =
            rw (execute_trigger, h, k, ◌>>◌, ◌>>=◌, ◌>>◌, ◌>>=◌, on_rows, started_run d.id) refl

    pub handle_trigger-outcome : handle_trigger cfg now trigger event_data new_id w ≡ outcome w
    unfolding handle_trigger check_limit outcome
    handle_trigger-outcome = go (over_limit w) refl
      where
        rest : Unit {0} → Run (Option ℕ)
        rest _ =
            on_rows (create_execution_record new_id now trigger.workflow.id trigger.id none)
            >>= (λ execution. execute_trigger cfg now trigger event_data execution.id)

        go :
            (a : Bool)
            → over_limit w ≡ a
            → handle_trigger cfg now trigger event_data new_id w ≡ outcome w
        go true h =
            >>=-err (check_limit cfg now trigger.workflow.id) rest w w
              (http_exception 402 "Execution limit reached") (rw (check_limit, h) refl)
            ∙ rw (outcome, h) refl
        go false h =
            >>=-ok (check_limit cfg now trigger.workflow.id) rest w w tt (rw (check_limit, h) refl)
            ∙ >>=-ok
                (on_rows (create_execution_record new_id now trigger.workflow.id trigger.id none))
                (λ execution. execute_trigger cfg now trigger event_data execution.id) w opened
                (new_execution new_id now trigger) (rw (on_rows, create_run) refl)
            ∙ execute_run
            ∙ rw (outcome, h) refl

    -- Under the usage limit, for an active workflow whose latest active deployment has no image,
    -- the request answers as it does without a deployment and the runtime is not called, but the
    -- execution is committed as started.
    pub missing_image_stays_started :
        (d : WorkflowDeployment)
        → over_limit w ≡ false
        → is_off trigger.workflow.active ≡ false
        → get_active_deployment cfg trigger.workflow.id ≡ some d
        → image_of cfg d.runtime ≡ ok none
        → handle_trigger cfg now trigger event_data new_id w
          ≡ (ok none, with_execution (running new_id now trigger d.id) w)
    unfolding outcome run_deployment
    missing_image_stays_started d h k q i =
        handle_trigger-outcome ∙ rw (outcome, h, k, q, run_deployment, i) refl
