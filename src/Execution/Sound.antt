-- ===== src/Execution/Sound.antt =====
-- Every call that the runtime gets stands in the committed executions as started.
use floww_backend.Prelude.{
  ℕ, ◌≡◌, refl, sym, ap, subst, ◌∙◌, inl, inr, Bool, Bool-cases, true, false, ◌&&◌, Option, none,
  some, List, [], ◌∷◌, ◌++◌, String, ◌==◌, ==_refl, all, all_mono, any, any-append, is_some, arith,
}
use floww_backend.Session.{Result, ok, err, http_exception, integrity_error}
use floww_backend.Table.{consistent, clear}
use floww_backend.Table.Laws.{consistent-insert}
use floww_backend.Execution.History.{ExecutionHistory, Db, same_execution, create_execution_record}
use floww_backend.Execution.World.{
  World, Run, Invocation, return, on_rows, continue, ◌>>=◌, >>=-ok, >>=-err,
}
use floww_backend.Execution.Trigger.{
  Setup, Trigger, WorkflowDeployment, is_off, get_active_deployment, image_of, get_provider_configs,
  invoke, run_deployment, execute_trigger, check_limit, handle_trigger, handle_triggers,
}
use floww_backend.Execution.Outcomes.{
  same_comm, new_execution, unserved, running, with_execution, over_limit, outcome,
  handle_trigger-outcome,
}

abbrev pub has_record : List ExecutionHistory → Invocation → Bool
has_record executions i =
    any (λ (e : ExecutionHistory). e.id == i.payload.execution_id && is_some e.started_at)
      executions

pub record Sound (w : World) : Type 0 where
  pub synced : w.rows ≡ w.committed
  pub unique : consistent same_execution w.committed.executions ≡ true
  pub recorded : all (has_record w.committed.executions) w.invoked ≡ true

module _ (cfg : Setup) (now : ℕ) (trigger : Trigger) (event_data : String) (new_id : ℕ) where
  called :
      {A : Type 0} (a : A) (r : Result (Unit {0})) {w : World}
      → Sound w
      → Sound (continue (r, w) (λ _. return a)).1
  called a (ok u) good = good
  called a (err e) good = good

  run_deployment-Sound :
      (d : WorkflowDeployment) (w : World)
      → Sound w
      → any
          (λ (e : ExecutionHistory). e.id == new_id && is_some e.started_at)
          w.committed.executions
        ≡ true
      → Sound (run_deployment cfg trigger event_data new_id d w).1
  unfolding run_deployment invoke
  run_deployment-Sound d w good known =
      go (image_of cfg d.runtime) (get_provider_configs cfg trigger.workflow.namespace_id) refl refl
    where
      go :
          (o : Result (Option String)) (c : Result (List (String × String)))
          → image_of cfg d.runtime ≡ o
          → get_provider_configs cfg trigger.workflow.namespace_id ≡ c
          → Sound (run_deployment cfg trigger event_data new_id d w).1
      go (err e) c h k = rw (run_deployment, h) good
      go (ok none) c h k = rw (run_deployment, h) good
      go (ok (some image)) (err e) h k = rw (run_deployment, h, k) good
      go (ok (some image)) (ok configs) h k =
          rw (run_deployment, h, k)
            (called _ (cfg.invoke_trigger _) (record {
              synced = good.synced;
              unique = good.unique;
              recorded = ground (arith, good.recorded, known);
            }))

  with_execution-Sound :
      (e : ExecutionHistory) (w : World)
      → Sound w
      → clear same_execution e w.rows.executions ≡ true
      → Sound (with_execution e w)
  with_execution-Sound e w good new = record {
    synced = refl;
    unique =
        consistent-insert same_execution same_comm e w.rows.executions
          (ap (λ (d : Db). consistent same_execution d.executions) good.synced ∙ good.unique)
        ∙ new;
    recorded =
        all_mono (has_record w.committed.executions) (has_record (w.rows.executions ++ e ∷ []))
          w.invoked
          (λ i h.
            any-append
              (λ (x : ExecutionHistory). x.id == i.payload.execution_id && is_some x.started_at)
              w.rows.executions (e ∷ [])
            ∙ ground (arith, ap (λ (d : Db). has_record d.executions i) good.synced, h))
          good.recorded;
  }

  module _ (w : World) (good : Sound w) where
    unique_rows : consistent same_execution w.rows.executions ≡ true
    unique_rows = ap (λ (d : Db). consistent same_execution d.executions) good.synced ∙ good.unique

    outcome-Sound :
        clear same_execution (new_execution new_id now trigger) w.rows.executions ≡ true
        → Sound (outcome cfg now trigger event_data new_id w).1
    unfolding outcome
    outcome-Sound new =
        go (over_limit cfg now trigger event_data new_id w) (is_off trigger.workflow.active)
          (get_active_deployment cfg trigger.workflow.id) refl refl refl
      where
        kept : Sound (with_execution (unserved new_id now trigger) w)
        kept = with_execution-Sound _ w good new

        run :
            (d : WorkflowDeployment)
            → Sound
                (run_deployment cfg trigger event_data new_id d
                  (with_execution (running new_id now trigger d.id) w)).1
        run d = run_deployment-Sound d _ (with_execution-Sound _ w good new) (
            any-append (λ (e : ExecutionHistory). e.id == new_id && is_some e.started_at)
              w.rows.executions _
            ∙ ground (arith, ==_refl new_id))

        go :
            (a b : Bool) (o : Option WorkflowDeployment)
            → over_limit cfg now trigger event_data new_id w ≡ a
            → is_off trigger.workflow.active ≡ b
            → get_active_deployment cfg trigger.workflow.id ≡ o
            → Sound (outcome cfg now trigger event_data new_id w).1
        go true b o h k q = rw (outcome, h) good
        go false true o h k q = rw (outcome, h, k) kept
        go false false none h k q = rw (outcome, h, k, q) kept
        go false false (some d) h k q = rw (outcome, h, k, q) (run d)

    -- An identifier that is taken is refused.
    rejected :
        clear same_execution (new_execution new_id now trigger) w.rows.executions ≡ false
        → on_rows (create_execution_record new_id now trigger.workflow.id trigger.id none) w
          ≡ (err integrity_error, w)
    unfolding create_execution_record
    rejected old =
        rw
          (
            on_rows,
            create_execution_record,
            consistent-insert same_execution same_comm (new_execution new_id now trigger)
                w.rows.executions unique_rows,
            old,
          )
          refl

    refused_stays :
        clear same_execution (new_execution new_id now trigger) w.rows.executions ≡ false
        → (handle_trigger cfg now trigger event_data new_id w).1 ≡ w
    unfolding handle_trigger check_limit
    refused_stays old = go (over_limit cfg now trigger event_data new_id w) refl
      where
        rest : Unit {0} → Run (Option ℕ)
        rest _ =
            on_rows (create_execution_record new_id now trigger.workflow.id trigger.id none)
            >>= (λ execution. execute_trigger cfg now trigger event_data execution.id)

        go :
            (a : Bool)
            → over_limit cfg now trigger event_data new_id w ≡ a
            → (handle_trigger cfg now trigger event_data new_id w).1 ≡ w
        go true h =
            ap (λ (r : Result (Option ℕ) × World). r.1)
              (>>=-err (check_limit cfg now trigger.workflow.id) rest w w
                (http_exception 402 "Execution limit reached") (rw (check_limit, h) refl))
        go false h =
            ap (λ (r : Result (Option ℕ) × World). r.1)
              (>>=-ok (check_limit cfg now trigger.workflow.id) rest w w tt
                  (rw (check_limit, h) refl)
                ∙ >>=-err
                    (on_rows
                      (create_execution_record new_id now trigger.workflow.id trigger.id none))
                    (λ execution. execute_trigger cfg now trigger event_data execution.id) w w
                    integrity_error (rejected old))

    handle_trigger-Sound : Sound (handle_trigger cfg now trigger event_data new_id w).1
    handle_trigger-Sound =
        elim (Bool-cases
          (clear same_execution (new_execution new_id now trigger) w.rows.executions)) [
            | inl new ↦
                subst {A = World} (λ v. Sound v)
                  (sym (
                    ap (λ (r : Result (Option ℕ) × World). r.1)
                      (handle_trigger-outcome cfg now trigger event_data new_id w unique_rows new)))
                  (outcome-Sound new)
            | inr old ↦ subst {A = World} (λ v. Sound v) (sym (refused_stays old)) good
          ]

rest-Sound :
    {A B : Type 0} (r : Result A × World) (f : A → Run B)
    → Sound r.1
    → ((a : A) (v : World) → Sound v → Sound (f a v).1)
    → Sound (continue r f).1
rest-Sound (ok a, v) f good h = h a v good
rest-Sound (err x, v) f good h = good

pub handle_triggers-Sound :
    (cfg : Setup) (now : ℕ) (event_data : String) (l : List (Trigger × ℕ)) (w : World)
    → Sound w
    → Sound (handle_triggers cfg now event_data l w).1
unfolding handle_triggers
handle_triggers-Sound cfg now event_data [] w good = good
handle_triggers-Sound cfg now event_data ((trigger, new_id) ∷ rest) w good =
    rest-Sound (handle_trigger cfg now trigger event_data new_id w) _
      (handle_trigger-Sound cfg now trigger event_data new_id w good)
      (λ a v g.
        rest-Sound (handle_triggers cfg now event_data rest v) _
          (handle_triggers-Sound cfg now event_data rest v g) (λ b u k. k))
