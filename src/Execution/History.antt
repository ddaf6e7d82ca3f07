-- ===== src/Execution/History.antt =====
-- The updates of app/services/execution_history_service.py on the rows of `ExecutionHistory` and
-- `ExecutionLog`. The parser of a timestamp is a parameter; a level is its text in lower case.
use floww_backend.Prelude.{
  ℕ, Bool, Option, none, some, List, [], ◌∷◌, ◌++◌, String, ◌==◌, str_eq, select, if◌then◌else◌,
}
use floww_backend.Session.{
  Session, Result, ok, err, pure, lift, integrity_error, scalar_one, scalar_one_or_none, ◌>>=◌,
  ◌>>◌,
}
use floww_backend.Table.{consistent, put}
use floww_backend.Billing.Limits.{
  ExecutionStatus, received, started, completed, failed, no_deployment,
}

pub record ExecutionHistory : Type 0 where
  pub id : ℕ
  pub workflow_id : ℕ
  pub trigger_id : Option ℕ
  pub triggered_by_user_id : Option ℕ
  pub deployment_id : Option ℕ
  pub status : ExecutionStatus
  pub received_at : ℕ
  pub started_at : Option ℕ
  pub completed_at : Option ℕ
  pub duration_ms : Option ℕ
  pub error_message : Option String

pub data LogLevel : Type 0 where
  debug info warn error log : LogLevel

pub record ExecutionLog : Type 0 where
  pub execution_history_id : ℕ
  pub timestamp : ℕ
  pub log_level : LogLevel
  pub message : String

-- A structured entry, of which the keys may be missing.
pub record LogEntry : Type 0 where
  pub entry_timestamp : Option String
  pub entry_level : Option String
  pub entry_message : Option String

pub data Logs : Type 0 where
  text : String → Logs
  entries : List LogEntry → Logs

pub record Db : Type 0 where
  pub executions : List ExecutionHistory
  pub logs : List ExecutionLog

abbrev pub same_execution : ExecutionHistory → ExecutionHistory → Bool
same_execution a b = a.id == b.id

abbrev pub with_id : ℕ → ExecutionHistory → Bool
with_id execution_id e = e.id == execution_id

-- `LogLevel(level_str)`, and `LogLevel.LOG` where that raises.
unfoldable pub level_of : String → LogLevel
level_of s =
    if str_eq s "debug"
    then debug
    else if str_eq s "info"
    then info
    else if str_eq s "warn"
    then warn
    else if str_eq s "error"
    then error
    else log

unfoldable pub query : ℕ → Session Db ExecutionHistory
query execution_id db = lift (scalar_one (select (with_id execution_id) db.executions)) db

abbrev pub save : ExecutionHistory → Session Db Unit
save e db = ok (tt, record db { executions = put same_execution e db.executions })

unfoldable pub create_execution_record : ℕ → ℕ → ℕ → ℕ → Option ℕ → Session Db ExecutionHistory
create_execution_record new_id now workflow_id trigger_id triggered_by_user_id db =
    let new : ExecutionHistory = record {
      id = new_id;
      workflow_id = workflow_id;
      trigger_id = some trigger_id;
      triggered_by_user_id = triggered_by_user_id;
      deployment_id = none;
      status = received;
      received_at = now;
      started_at = none;
      completed_at = none;
      duration_ms = none;
      error_message = none;
    } in
    if consistent same_execution (db.executions ++ new ∷ [])
    then ok (new, record db { executions = db.executions ++ new ∷ [] })
    else err integrity_error

unfoldable pub update_execution_started : ℕ → ℕ → ℕ → Session Db Unit
update_execution_started now execution_id deployment_id = do
  e ← query execution_id
  save (record e { status = started; started_at = some now; deployment_id = some deployment_id })

unfoldable pub update_execution_no_deployment : ℕ → ℕ → Session Db Unit
update_execution_no_deployment now execution_id = do
  e ← query execution_id
  save (record e { status = no_deployment; completed_at = some now })

-- `if duration_ms is not None: execution.duration_ms = duration_ms`
abbrev pub given : Option ℕ → Option ℕ → Option ℕ
given new old = elim new [ none ↦ old | some d ↦ some d ]

module _ (lower : String → String) (fromisoformat : String → Result ℕ) where
  time_of : ℕ → Option String → Result ℕ
  time_of now none = ok now
  time_of now (some ts) = fromisoformat ts

  unfoldable pub log_of : ℕ → ℕ → LogEntry → Result ExecutionLog
  unfolding level_of time_of
  log_of now execution_id entry = elim (time_of now entry.entry_timestamp) [
    | err e ↦ err e
    | ok ts ↦ ok (record {
      execution_history_id = execution_id;
      timestamp = ts;
      log_level = level_of (lower (elim entry.entry_level [ none ↦ "log" | some l ↦ l ]));
      message = elim entry.entry_message [ none ↦ "" | some m ↦ m ];
    })
  ]

  unfoldable pub logs_of : ℕ → ℕ → List LogEntry → Result (List ExecutionLog)
  unfolding log_of
  logs_of now execution_id [] = ok []
  logs_of now execution_id (entry ∷ rest) = elim (log_of now execution_id entry) [
    | err e ↦ err e
    | ok l ↦ elim (logs_of now execution_id rest) [ err e ↦ err e | ok ls ↦ ok (l ∷ ls) ]
  ]

  unfoldable pub process_logs : ℕ → ℕ → Logs → Session Db Unit
  unfolding logs_of
  process_logs now execution_id (text s) db = ok (
    tt,
    record db {
      logs =
          db.logs
          ++ record {
            execution_history_id = execution_id;
            timestamp = now;
            log_level = log;
            message = s;
          }
            ∷ [];
    },
  )
  process_logs now execution_id (entries l) db = elim (logs_of now execution_id l) [
    | err e ↦ err e
    | ok ls ↦ ok (tt, record db { logs = db.logs ++ ls })
  ]

  unfoldable pub update_execution_completed : ℕ → ℕ → Option Logs → Option ℕ → Session Db Unit
  unfolding process_logs
  update_execution_completed now execution_id logs duration_ms = do
    e ← query execution_id
    save (record e {
      status = completed;
      completed_at = some now;
      duration_ms = given duration_ms e.duration_ms;
    })
    elim logs [ none ↦ pure tt | some l ↦ process_logs now execution_id l ]

  unfoldable pub update_execution_failed : ℕ → ℕ → String → Option Logs → Option ℕ → Session Db Unit
  unfolding process_logs
  update_execution_failed now execution_id error_message logs duration_ms = do
    e ← query execution_id
    save (record e {
      status = failed;
      completed_at = some now;
      error_message = some error_message;
      duration_ms = given duration_ms e.duration_ms;
    })
    elim logs [ none ↦ pure tt | some l ↦ process_logs now execution_id l ]

unfoldable pub get_execution_by_id : ℕ → Session Db (Option ExecutionHistory)
get_execution_by_id execution_id db =
    lift (scalar_one_or_none (select (with_id execution_id) db.executions)) db
