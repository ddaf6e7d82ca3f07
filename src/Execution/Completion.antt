-- ===== src/Execution/Completion.antt =====
-- The end of an execution in app/routes/executions.py: what the runtime reports with the token of
-- its call. `verify_invocation_token` is a parameter: the workflow of a valid token.
use floww_backend.Prelude.{ℕ, not, Option, none, some, String, ◌==◌}
use floww_backend.Session.{Session, Result, raise, raise_if, http_exception, ◌>>=◌, ◌>>◌}
use floww_backend.Execution.History.{
  Db, Logs, get_execution_by_id, update_execution_completed, update_execution_failed,
}

-- `ExecutionCompleteRequest`
pub record Report : Type 0 where
  pub error : Option String
  pub logs : Option Logs
  pub duration_ms : Option ℕ

module _ (lower : String → String) (fromisoformat : String → Result ℕ)
    (verify_invocation_token : String → Option ℕ) where
  -- `token` is that of the header `Authorization`, if it is a bearer token.
  unfoldable pub complete_execution : ℕ → ℕ → Option String → Report → Session Db Unit
  complete_execution now execution_id none body =
      raise (http_exception 401 "Missing or invalid Authorization header")
  complete_execution now execution_id (some token) body = elim (verify_invocation_token token) [
    | none ↦ raise (http_exception 401 "Invalid or expired token")
    | some workflow_id ↦ do
      found ← get_execution_by_id execution_id
      elim found [
        | none ↦ raise (http_exception 404 "Execution not found")
        | some e ↦ do
          raise_if (not (e.workflow_id == workflow_id))
              (http_exception 403 "Token does not match execution workflow")
          elim body.error [
            | some message ↦
                update_execution_failed lower fromisoformat now execution_id message body.logs
                  body.duration_ms
            | none ↦
                update_execution_completed lower fromisoformat now execution_id body.logs
                  body.duration_ms
          ]
      ]
  ]
