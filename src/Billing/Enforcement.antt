-- ===== src/Billing/Enforcement.antt =====
-- The limits as the callers meet them: app/deps/billing.py over the checks of
-- app/services/billing_service.py.
use floww_backend.Prelude.{
  ℕ, ◌≤◌, ◌≡◌, true, not, ◌&&◌, ◌||◌, some, ltb, ◌==◌, length, all, find, arith, if◌then◌else◌,
}
use floww_backend.Session.{ok, err, http_exception}
use floww_backend.Billing.Data.{Db, Settings, Subscription}
use floww_backend.Billing.Plan.{get_subscription_details}
use floww_backend.Billing.Lifecycle.{of_organization}
use floww_backend.Billing.Limits.{
  Usage, Datetime, Namespace, at_most, start_of_month, check_workflow_limit, check_execution_limit,
  check_can_create_workflow_in_namespace, check_can_execute_workflow_in_org,
}
use floww_backend.Table.{consistent}
use floww_backend.Billing.Counts.{
  same_namespace, same_workflow, owned_workflows, monthly_executions, past,
  get_workflow_count-owned, get_execution_count-monthly,
}
use floww_backend.Billing.Constraints.{IsConsistent}
use floww_backend.Billing.Accounts.{get_or_create-existing}

-- Among executions received up to now on a day numbered from 1, the bound of the monthly count
-- lets through exactly those of the same year and month.
pub month_window :
    (now received : Datetime)
    → 1 ≤ received.day
    → at_most received now ≡ true
    → at_most (start_of_month now) received
      ≡ (received.year == now.year && received.month == now.month)
unfolding at_most start_of_month
month_window now received h le = ground arith

module _ (cfg : Settings) (others : Db → Db) (n : ℕ) (usage : Usage) (now org : ℕ)
    (s : Subscription) (db : Db) (valid : IsConsistent db)
    (known : find (of_organization org) db.subscriptions ≡ some s)
    (namespaces : consistent same_namespace usage.namespaces ≡ true) where
  -- On a consistent database with unique identifiers of namespaces, for a namespace of an
  -- organization with a subscription, creating a workflow is allowed exactly outside the cloud
  -- or while fewer workflows than the plan allows at the time stand in namespaces that the
  -- organization owns; otherwise the caller gets a 402. No row changes.
  pub create_workflow_enforced :
      (ns : Namespace)
      → find (λ x. x.namespace_id == ns.namespace_id) usage.namespaces ≡ some ns
      → ns.organization_owner_id ≡ some org
      → check_can_create_workflow_in_namespace cfg others n usage now ns.namespace_id db ≡ (
          if not cfg.is_cloud
            || ltb
                (length (owned_workflows usage org))
                (get_subscription_details now s).workflow_limit
          then ok (tt, db)
          else err (http_exception 402 "Workflow limit reached"))
  unfolding check_can_create_workflow_in_namespace check_workflow_limit
  create_workflow_enforced ns there owned = ground (
    arith,
    get_or_create-existing others n org db valid s known,
    get_workflow_count-owned usage org namespaces,
  )

  -- On a consistent database with unique identifiers of namespaces and workflows, and executions
  -- received up to now on days numbered from 1, for an organization with a subscription, running
  -- a workflow is allowed exactly outside the cloud or while fewer executions than the plan
  -- allows were received in this year and month for workflows in namespaces that the
  -- organization owns, those that failed, timed out or had no deployment not counted; otherwise
  -- the caller gets a 402. No row changes.
  pub execute_workflow_enforced :
      (today : Datetime)
      → consistent same_workflow usage.workflows ≡ true
      → all (past today) usage.executions ≡ true
      → check_can_execute_workflow_in_org cfg others n usage now today org db ≡ (
          if not cfg.is_cloud
            || ltb
                (length (monthly_executions usage org today))
                (get_subscription_details now s).execution_limit_per_month
          then ok (tt, db)
          else err (http_exception 402 "Execution limit reached"))
  unfolding check_can_execute_workflow_in_org check_execution_limit
  execute_workflow_enforced today workflows received = ground (
    arith,
    get_or_create-existing others n org db valid s known,
    get_execution_count-monthly usage org namespaces workflows today received,
  )
