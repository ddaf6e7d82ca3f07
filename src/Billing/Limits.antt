-- ===== src/Billing/Limits.antt =====
-- Usage limits: the counts and the two limit checks of app/services/billing_service.py, and the
-- dependencies of app/deps/billing.py that raise on them.
use floww_backend.Prelude.{
  ℕ, Bool, true, false, not, ◌&&◌, ◌||◌, Option, none, some, List, ltb, leb, ◌==◌, length, select,
  any, find, if◌then◌else◌,
}
use floww_backend.Session.{Session, pure, raise, http_exception, ◌>>=◌}
use floww_backend.Billing.Data.{Db, Settings}
use floww_backend.Billing.Plan.{get_subscription_details}
use floww_backend.Billing.Lifecycle.{get_or_create_subscription}

pub data ExecutionStatus : Type 0 where
  received started completed failed timeout no_deployment : ExecutionStatus

-- A UTC datetime by its calendar fields; `time` is the microseconds since midnight.
pub record Datetime : Type 0 where
  pub year : ℕ
  pub month : ℕ
  pub day : ℕ
  pub time : ℕ

pub record Namespace : Type 0 where
  pub namespace_id : ℕ
  pub organization_owner_id : Option ℕ

pub record Workflow : Type 0 where
  pub workflow_id : ℕ
  pub in_namespace : ℕ

pub record Execution : Type 0 where
  pub of_workflow : ℕ
  pub received_at : Datetime
  pub status : ExecutionStatus

-- The tables that the counts read.
pub record Usage : Type 0 where
  pub namespaces : List Namespace
  pub workflows : List Workflow
  pub executions : List Execution

-- What a check tells the user, by the limit that the text names.
pub data Message : Type 0 where
  empty : Message
  workflow_limit_reached free_workflow_limit_reached : ℕ → Message
  execution_limit_reached free_execution_limit_reached : ℕ → Message

-- `now.replace(day=1, hour=0, minute=0, second=0, microsecond=0)`
unfoldable pub start_of_month : Datetime → Datetime
start_of_month d = record d { day = 1; time = 0 }

-- `a <= b`
unfoldable pub at_most : Datetime → Datetime → Bool
at_most a b =
    ltb a.year b.year
    || (a.year == b.year
        && (ltb a.month b.month
            || (a.month == b.month && (ltb a.day b.day || (a.day == b.day && leb a.time b.time)))))

abbrev pub owned_by : ℕ → Option ℕ → Bool
owned_by org none = false
owned_by org (some o) = o == org

-- The join of a workflow with its namespace, of the organization.
unfoldable pub workflow_of : Usage → ℕ → Workflow → Bool
workflow_of usage org w =
    any (λ n. n.namespace_id == w.in_namespace && owned_by org n.organization_owner_id)
      usage.namespaces

unfoldable pub get_workflow_count : Usage → ℕ → ℕ
unfolding workflow_of
get_workflow_count usage org = length (select (workflow_of usage org) usage.workflows)

-- `status.in_([COMPLETED, STARTED, RECEIVED])`
unfoldable pub counts : ExecutionStatus → Bool
counts completed = true
counts started = true
counts received = true
counts failed = false
counts timeout = false
counts no_deployment = false

unfoldable pub counted : Usage → ℕ → Datetime → Execution → Bool
unfolding workflow_of at_most start_of_month counts
counted usage org now x =
    any (λ w. w.workflow_id == x.of_workflow && workflow_of usage org w) usage.workflows
    && (at_most (start_of_month now) x.received_at && counts x.status)

unfoldable pub get_execution_count_this_month : Usage → ℕ → Datetime → ℕ
unfolding counted
get_execution_count_this_month usage org now =
    length (select (counted usage org now) usage.executions)

-- The answer of a check, by the limit, the count and the two texts.
answer : Bool → ℕ → ℕ → (ℕ → Message) → (ℕ → Message) → Bool × Message
answer paid limit count reached free_reached =
    if leb limit count
    then (if paid then (false, reached limit) else (false, free_reached limit))
    else (true, empty)

module _ (cfg : Settings) (others : Db → Db) (new_id : ℕ) (usage : Usage) where
  unfoldable pub check_workflow_limit : ℕ → ℕ → Session Db (Bool × Message)
  unfolding answer
  check_workflow_limit now org = if not cfg.is_cloud then pure (true, empty) else do
    subscription ← get_or_create_subscription others new_id org
    let details = get_subscription_details now subscription
    pure (
        answer details.is_paid details.workflow_limit (get_workflow_count usage org)
          workflow_limit_reached free_workflow_limit_reached)

  unfoldable pub check_execution_limit : ℕ → Datetime → ℕ → Session Db (Bool × Message)
  unfolding answer
  check_execution_limit now today org = if not cfg.is_cloud then pure (true, empty) else do
    subscription ← get_or_create_subscription others new_id org
    let details = get_subscription_details now subscription
    pure (
        answer details.is_paid details.execution_limit_per_month
          (get_execution_count_this_month usage org today) execution_limit_reached
          free_execution_limit_reached)

  -- app/deps/billing.py

  owner_of : Option Namespace → Option ℕ
  owner_of none = none
  owner_of (some n) = n.organization_owner_id

  unfoldable pub get_organization_for_namespace : ℕ → Session Db ℕ
  unfolding owner_of
  get_organization_for_namespace namespace_id =
      elim (owner_of (find (λ n. n.namespace_id == namespace_id) usage.namespaces)) [
        | none ↦ raise (http_exception 404 "Namespace or organization not found")
        | some org ↦ pure org
      ]

  unfoldable pub check_can_create_workflow_in_namespace : ℕ → ℕ → Session Db Unit
  unfolding get_organization_for_namespace
  check_can_create_workflow_in_namespace now namespace_id = if not cfg.is_cloud then pure tt else do
    organization ← get_organization_for_namespace namespace_id
    checked ← check_workflow_limit now organization
    if not checked.0 then raise (http_exception 402 "Workflow limit reached") else pure tt

  unfoldable pub check_can_execute_workflow_in_org : ℕ → Datetime → ℕ → Session Db Unit
  check_can_execute_workflow_in_org now today organization =
      if not cfg.is_cloud then pure tt else do
        checked ← check_execution_limit now today organization
        if not checked.0 then raise (http_exception 402 "Execution limit reached") else pure tt

  unfoldable pub require_paid_subscription : ℕ → ℕ → Session Db Unit
  require_paid_subscription now organization = if not cfg.is_cloud then pure tt else do
    subscription ← get_or_create_subscription others new_id organization
    let details = get_subscription_details now subscription
    if not details.is_paid then raise (http_exception 402 "Paid subscription required") else pure tt
