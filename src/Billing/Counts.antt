-- ===== src/Billing/Counts.antt =====
-- What the counts of app/services/billing_service.py count: the workflows that stand in namespaces
-- of an organization, and of their executions those of this month that did not fail.
use floww_backend.Prelude.{
  ℕ, ◌≡◌, refl, ap, ◌∙◌, inl, inr, Bool, Bool-cases, true, false, not, ◌&&◌, Option, none, some,
  List, [], ◌∷◌, ◌==◌, leb, length, select, select_ext, find, any, all, arith,
}
use floww_backend.Table.{consistent, clear}
use floww_backend.Table.Laws.{PicksUnique}
use floww_backend.Billing.Limits.{
  Usage, Datetime, Namespace, Workflow, Execution, ExecutionStatus, received, started, completed,
  failed, timeout, no_deployment, at_most, start_of_month, owned_by, workflow_of, counts, counted,
  get_workflow_count, get_execution_count_this_month,
}

-- The primary keys.
abbrev pub same_namespace : Namespace → Namespace → Bool
same_namespace a b = a.namespace_id == b.namespace_id

abbrev pub same_workflow : Workflow → Workflow → Bool
same_workflow a b = a.workflow_id == b.workflow_id

-- The organization that owns a namespace, and that of a workflow, through its namespace.
abbrev pub namespace_owner : Usage → ℕ → Option ℕ
namespace_owner usage id = elim (find (λ (n : Namespace). n.namespace_id == id) usage.namespaces) [
  | none ↦ none
  | some n ↦ n.organization_owner_id
]

abbrev pub workflow_owner : Usage → ℕ → Option ℕ
workflow_owner usage id = elim (find (λ (w : Workflow). w.workflow_id == id) usage.workflows) [
  | none ↦ none
  | some w ↦ namespace_owner usage w.in_namespace
]

abbrev pub is_org : ℕ → Option ℕ → Bool
is_org org none = false
is_org org (some o) = org == o

-- Executions that failed, timed out or had no deployment do not count.
abbrev pub fruitless : ExecutionStatus → Bool
fruitless failed = true
fruitless timeout = true
fruitless no_deployment = true
fruitless completed = false
fruitless started = false
fruitless received = false

abbrev pub owned_workflows : Usage → ℕ → List Workflow
owned_workflows usage org =
    select (λ (w : Workflow). is_org org (namespace_owner usage w.in_namespace)) usage.workflows

abbrev pub monthly_executions : Usage → ℕ → Datetime → List Execution
monthly_executions usage org today =
    select
      (λ (x : Execution).
        is_org org (workflow_owner usage x.of_workflow)
        && (x.received_at.year == today.year
            && (x.received_at.month == today.month && not (fruitless x.status))))
      usage.executions

-- Received up to now, on a day numbered from 1.
abbrev pub past : Datetime → Execution → Bool
past today x = leb 1 x.received_at.day && at_most x.received_at today

select-cong :
    {A : Type 0} (p q good : A → Bool) (rows : List A)
    → ((a : A) → good a ≡ true → p a ≡ q a)
    → all good rows ≡ true
    → select p rows ≡ select q rows
select-cong p q good [] h g = refl
select-cong p q good (x ∷ rows) h g = ground (arith, h x, select-cong p q good rows h)

is_org-owned_by : (org : ℕ) (o : Option ℕ) → owned_by org o ≡ is_org org o
is_org-owned_by org none = refl
is_org-owned_by org (some n) = ground arith

-- A join on a primary key finds the row with the identifier.
module _ {Row : Type 0} (same : Row → Row → Bool) (key q : Row → Bool)
    (unique : PicksUnique same key) where
  none_joined :
      (x : Row) (rows : List Row)
      → key x ≡ true
      → clear same x rows ≡ true
      → any (λ r. key r && q r) rows ≡ false
  none_joined x [] e c = refl
  none_joined x (y ∷ rows) e c = ground (arith, unique x y, none_joined x rows)

  joined :
      (rows : List Row)
      → consistent same rows ≡ true
      → any (λ r. key r && q r) rows ≡ elim (find key rows) [ none ↦ false | some r ↦ q r ]
  unfolding consistent
  joined [] c = refl
  joined (x ∷ rows) c = elim (Bool-cases (key x)) [
    | inl h ↦ ground (arith, none_joined x rows)
    | inr h ↦ ground (arith, joined rows)
  ]

module _ (usage : Usage) (org : ℕ)
    (namespaces : consistent same_namespace usage.namespaces ≡ true) where
  workflow_of-owner :
      (w : Workflow) → workflow_of usage org w ≡ is_org org (namespace_owner usage w.in_namespace)
  unfolding workflow_of
  workflow_of-owner w =
      joined same_namespace (λ (n : Namespace). n.namespace_id == w.in_namespace)
        (λ (n : Namespace). owned_by org n.organization_owner_id) (λ x y h k. ground arith)
        usage.namespaces namespaces
      ∙ owner (find (λ (n : Namespace). n.namespace_id == w.in_namespace) usage.namespaces)
    where
      owner :
          (o : Option Namespace)
          → elim o [ none ↦ false | some n ↦ owned_by org n.organization_owner_id ]
            ≡ is_org org (elim o [ none ↦ none | some n ↦ n.organization_owner_id ])
      owner none = refl
      owner (some n) = is_org-owned_by org n.organization_owner_id

  pub get_workflow_count-owned : get_workflow_count usage org ≡ length (owned_workflows usage org)
  unfolding get_workflow_count
  get_workflow_count-owned = ap length (
      select_ext (workflow_of usage org)
        (λ (w : Workflow). is_org org (namespace_owner usage w.in_namespace)) usage.workflows
        workflow_of-owner)

  module _ (workflows : consistent same_workflow usage.workflows ≡ true) (today : Datetime) where
    execution_owner :
        (id : ℕ)
        → any (λ (w : Workflow). w.workflow_id == id && workflow_of usage org w) usage.workflows
          ≡ is_org org (workflow_owner usage id)
    execution_owner id =
        joined same_workflow (λ (w : Workflow). w.workflow_id == id) (workflow_of usage org)
          (λ x y h k. ground arith) usage.workflows workflows
        ∙ owner (find (λ (w : Workflow). w.workflow_id == id) usage.workflows)
      where
        owner :
            (o : Option Workflow)
            → elim o [ none ↦ false | some w ↦ workflow_of usage org w ]
              ≡ is_org org (elim o [ none ↦ none | some w ↦ namespace_owner usage w.in_namespace ])
        owner none = refl
        owner (some w) = workflow_of-owner w

    counts-fruitless : (s : ExecutionStatus) → counts s ≡ not (fruitless s)
    unfolding counts
    counts-fruitless received = refl
    counts-fruitless started = refl
    counts-fruitless completed = refl
    counts-fruitless failed = refl
    counts-fruitless timeout = refl
    counts-fruitless no_deployment = refl

    counted-monthly :
        (x : Execution)
        → past today x ≡ true
        → counted usage org today x ≡ (
            is_org org (workflow_owner usage x.of_workflow)
            && (x.received_at.year == today.year
                && (x.received_at.month == today.month && not (fruitless x.status))))
    unfolding counted at_most start_of_month
    counted-monthly x h =
        rw (execution_owner x.of_workflow, counts-fruitless x.status) (ground arith)

    pub get_execution_count-monthly :
        all (past today) usage.executions ≡ true
        → get_execution_count_this_month usage org today
          ≡ length (monthly_executions usage org today)
    unfolding get_execution_count_this_month
    get_execution_count-monthly h = ap length (
        select-cong (counted usage org today)
          (λ (x : Execution).
            is_org org (workflow_owner usage x.of_workflow)
            && (x.received_at.year == today.year
                && (x.received_at.month == today.month && not (fruitless x.status))))
          (past today) usage.executions counted-monthly h)
