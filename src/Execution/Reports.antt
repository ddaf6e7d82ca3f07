-- ===== src/Execution/Reports.antt =====
-- What a report to app/routes/executions.py changes of the executions.
use floww_backend.Prelude.{
  ℕ, ◌≡◌, refl, ap, subst, ◌∙◌, inl, inr, Bool, Bool-cases, true, Option, none, some, List, [], ◌∷◌,
  String, select, all, all_mono, is_some, if◌then◌else◌, arith,
}
use floww_backend.Session.{
  Result, Session, ok, err, scalar_one, scalar_one_or_none, >>=-eq-ok, pure, ◌>>◌,
}
use floww_backend.Billing.Limits.{completed, failed}
use floww_backend.Table.{consistent, put}
use floww_backend.Table.Laws.{consistent-put}
use floww_backend.Table.Rows.{all-guarded}
use floww_backend.Table.Updates.{fits_always}
use floww_backend.Execution.History.{
  ExecutionHistory, ExecutionLog, Db, Logs, same_execution, with_id, query, save, given,
  process_logs, logs_of, get_execution_by_id, update_execution_completed, update_execution_failed,
}
use floww_backend.Execution.World.{World, Invocation}
use floww_backend.Execution.Completion.{Report, complete_execution}
use floww_backend.Execution.Outcomes.{same_comm}
use floww_backend.Execution.Sound.{has_record, Sound}

every_one :
    (q : ExecutionHistory → Bool) (rows : List ExecutionHistory) (e : ExecutionHistory)
    → scalar_one rows ≡ ok e
    → q e ≡ true
    → all q rows ≡ true
unfolding scalar_one
every_one q [] e h k = refl
every_one q (x ∷ []) e h k = ground arith
every_one q (x ∷ y ∷ rows) e h k = absurd (ground arith)

one_passes :
    (n : ℕ) (rows : List ExecutionHistory) (e : ExecutionHistory)
    → scalar_one (select (with_id n) rows) ≡ ok e
    → e.id ≡ n
unfolding scalar_one
one_passes n [] e h = absurd (ground arith)
one_passes n (x ∷ rows) e h = elim (Bool-cases (with_id n x)) [
  | inl k ↦ first k (select (with_id n) rows) refl
  | inr k ↦ ground (arith, one_passes n rows e)
]
  where
    first :
        with_id n x ≡ true → (l : List ExecutionHistory) → select (with_id n) rows ≡ l → e.id ≡ n
    first k [] m = ground arith
    first k (y ∷ l) m = absurd (ground arith)

-- An update that keeps the start of the one row of its key keeps what is recorded.
kept_by_put :
    (i : Invocation) (new : ExecutionHistory) (rows : List ExecutionHistory)
    → all
        (λ (x : ExecutionHistory).
          if with_id new.id x
          then (if is_some x.started_at then is_some new.started_at else true)
          else true)
        rows
      ≡ true
    → has_record rows i ≡ true
    → has_record (put same_execution new rows) i ≡ true
unfolding put
kept_by_put i new [] a h = absurd (ground arith)
kept_by_put i new (x ∷ rows) a h = ground (arith, kept_by_put i new rows)

-- What a report does to the executions.
pub record Ended (db after : Db) : Type 0 where
  old : ExecutionHistory
  new : ExecutionHistory
  only : scalar_one (select (with_id old.id) db.executions) ≡ ok old
  same_id : new.id ≡ old.id
  same_start : new.started_at ≡ old.started_at
  stored : after.executions ≡ put same_execution new db.executions

query-row :
    (n : ℕ) (e : ExecutionHistory) (db after : Db)
    → query n db ≡ ok (e, after)
    → (after ≡ db) × (scalar_one (select (with_id n) db.executions) ≡ ok e)
unfolding query
query-row n e db after h = go (scalar_one (select (with_id n) db.executions)) refl
  where
    go :
        (x : Result ExecutionHistory)
        → scalar_one (select (with_id n) db.executions) ≡ x
        → (after ≡ db) × (scalar_one (select (with_id n) db.executions) ≡ ok e)
    go (ok b) k = (ground arith, ground arith)
    go (err y) k = absurd (ground arith)

module _ (lower : String → String) (fromisoformat : String → Result ℕ) where
  process_logs-executions :
      (now n : ℕ) (l : Logs) (db after : Db)
      → process_logs lower fromisoformat now n l db ≡ ok (tt, after)
      → after.executions ≡ db.executions
  unfolding process_logs
  process_logs-executions now n (Logs.text s) db after h = ground arith
  process_logs-executions now n (Logs.entries l) db after h =
      go (logs_of lower fromisoformat now n l) refl
    where
      go :
          (x : Result (List ExecutionLog))
          → logs_of lower fromisoformat now n l ≡ x
          → after.executions ≡ db.executions
      go (ok ls) k = ground arith
      go (err y) k = absurd (ground arith)

  ended :
      (now n : ℕ) (e new : ExecutionHistory) (logs : Option Logs) (db after : Db)
      → scalar_one (select (with_id n) db.executions) ≡ ok e
      → new.id ≡ e.id
      → new.started_at ≡ e.started_at
      → (elim logs as (λ _. Session Db (Unit {0})) [
        | none ↦ pure tt
        | some l ↦ process_logs lower fromisoformat now n l
      ])
          (record db { executions = put same_execution new db.executions })
        ≡ ok (tt, after)
      → Ended db after
  ended now n e new logs db after one a b h = record {
    old = e;
    new = new;
    same_id = a;
    same_start = b;
    only =
        ap (λ k. scalar_one (select (with_id k) db.executions)) (one_passes n db.executions e one)
        ∙ one;
    stored = left logs h;
  }
    where
      left :
          (o : Option Logs)
          → (elim o as (λ _. Session Db (Unit {0})) [
            | none ↦ pure tt
            | some l ↦ process_logs lower fromisoformat now n l
          ])
              (record db { executions = put same_execution new db.executions })
            ≡ ok (tt, after)
          → after.executions ≡ put same_execution new db.executions
      left none h = ground arith
      left (some l) h = process_logs-executions now n l _ after h

  completed_ends :
      (now n : ℕ) (logs : Option Logs) (duration : Option ℕ) (db after : Db)
      → update_execution_completed lower fromisoformat now n logs duration db ≡ ok (tt, after)
      → Ended db after
  unfolding update_execution_completed
  completed_ends now n logs duration db after h =
      let (e, s, q, k) = >>=-eq-ok (query n) _ db h in
      let (same, one) = query-row n e db s q in
      ended now n e
        (record e {
          status = completed;
          completed_at = some now;
          duration_ms = given duration e.duration_ms;
        })
        logs db after one refl refl
        (subst {A = Db}
          (λ d.
            rest
              (record e {
                status = completed;
                completed_at = some now;
                duration_ms = given duration e.duration_ms;
              })
              d
            ≡ ok (tt, after))
          same k)
    where
      rest : ExecutionHistory → Session Db (Unit {0})
      rest new =
          save new
          >> (elim logs [ none ↦ pure tt | some l ↦ process_logs lower fromisoformat now n l ])

  failed_ends :
      (now n : ℕ) (message : String) (logs : Option Logs) (duration : Option ℕ) (db after : Db)
      → update_execution_failed lower fromisoformat now n message logs duration db ≡ ok (tt, after)
      → Ended db after
  unfolding update_execution_failed
  failed_ends now n message logs duration db after h =
      let (e, s, q, k) = >>=-eq-ok (query n) _ db h in
      let (same, one) = query-row n e db s q in
      ended now n e
        (record e {
          status = failed;
          completed_at = some now;
          error_message = some message;
          duration_ms = given duration e.duration_ms;
        })
        logs db after one refl refl
        (subst {A = Db}
          (λ d.
            rest
              (record e {
                status = failed;
                completed_at = some now;
                error_message = some message;
                duration_ms = given duration e.duration_ms;
              })
              d
            ≡ ok (tt, after))
          same k)
    where
      rest : ExecutionHistory → Session Db (Unit {0})
      rest new =
          save new
          >> (elim logs [ none ↦ pure tt | some l ↦ process_logs lower fromisoformat now n l ])

module _ (lower : String → String) (fromisoformat : String → Result ℕ)
    (verify : String → Option ℕ) where
  pub report-Ended :
      (now n : ℕ) (token : Option String) (body : Report) (db after : Db)
      → complete_execution lower fromisoformat verify now n token body db ≡ ok (tt, after)
      → Ended db after
  unfolding complete_execution get_execution_by_id
  report-Ended now n none body db after h = absurd (ground arith)
  report-Ended now n (some token) body db after h =
      go (verify token) refl (scalar_one_or_none (select (with_id n) db.executions)) refl body.error
        refl
    where
      go :
          (v : Option ℕ)
          → verify token ≡ v
          → (x : Result (Option ExecutionHistory))
          → scalar_one_or_none (select (with_id n) db.executions) ≡ x
          → (m : Option String) → body.error ≡ m
          → Ended db after
      go none k x q m r = absurd (ground arith)
      go (some workflow_id) k (ok none) q m r = absurd (ground arith)
      go (some workflow_id) k (err y) q m r = absurd (ground arith)
      go (some workflow_id) k (ok (some e)) q none r =
          completed_ends lower fromisoformat now n body.logs body.duration_ms db after
            (ground arith)
      go (some workflow_id) k (ok (some e)) q (some message) r =
          failed_ends lower fromisoformat now n message body.logs body.duration_ms db after
            (ground arith)

pub ended-Sound :
    (w : World) (after : Db)
    → Sound w
    → Ended w.committed after
    → Sound (record w { rows = after; committed = after })
ended-Sound w after good end = record {
  synced = refl;
  unique =
      ap (λ l. consistent same_execution l) end.stored
      ∙ consistent-put same_execution same_execution same_comm (λ r x y h k. ground arith) end.new
          w.committed.executions good.unique
          (fits_always same_execution end.new w.committed.executions);
  recorded =
      all_mono (has_record w.committed.executions) (has_record after.executions) w.invoked
        (λ i h.
          ap (λ l. has_record l i) end.stored
          ∙ kept_by_put i end.new w.committed.executions marked h)
        good.recorded;
}
  where
    marked :
        all
          (λ (x : ExecutionHistory).
            if with_id end.new.id x
            then (if is_some x.started_at then is_some end.new.started_at else true)
            else true)
          w.committed.executions
        ≡ true
    marked =
        all-guarded
          (λ (x : ExecutionHistory).
            if is_some x.started_at then is_some end.new.started_at else true)
          (with_id end.new.id) w.committed.executions
          (every_one
            (λ (x : ExecutionHistory).
              if is_some x.started_at then is_some end.new.started_at else true)
            (select (with_id end.new.id) w.committed.executions) end.old
            (ap (λ n. scalar_one (select (with_id n) w.committed.executions)) end.same_id
              ∙ end.only)
            (ground (arith, end.same_start)))
