-- ===== src/Billing/Tests.antt =====
-- Runs of the billing model on small tables.
use floww_backend.Prelude.{
  str_eq, ℕ, ◌+◌, ◌≤◌, ◌≡◌, ◌⊎◌, ◌≢◌, ◌↔◌, refl, true, false, ◌||◌, ◌&&◌, Option, none, some,
  String, [], ◌∷◌, ltb, length, all, find, any, arith, if◌then◌else◌,
}
use floww_backend.Session.{ok, err, http_exception, scalar_one_or_none}
use floww_backend.Table.{consistent, put}
use floww_backend.Billing.Data.{
  Subscription, StripeObject, Settings, Db, free, hobby, team, past_due, clash, same_id,
  clash_event, column_is, from_timestamp, days,
}
use floww_backend.Billing.Plan.{
  plan_limits, is_subscription_active, get_subscription_details, lies_ahead,
}
use floww_backend.Billing.Lifecycle.{flush, of_organization, query_subscription, downgrade_to_free}
use floww_backend.Billing.Webhook.{
  by_id, by_stripe_id, of_event, event_row, is_duplicate_event, insert_event, record_event,
  handle_subscription_deleted, handle_subscription_updated, handle_payment_failed_event,
  handle_payment_succeeded_event, sync_tier, status_is,
}
use floww_backend.Billing.Route.{
  event_type_of, dispatch, stripe_webhook, StripeEvent, Verified, verified, invalid_signature,
}
use floww_backend.Billing.Constraints.{IsConsistent, recorded}
use floww_backend.Billing.Entitlement.{Entitled, is_paid_iff, is_paid_antitone, details_limits}
use floww_backend.Billing.Idempotence.{stripe_webhook_idempotent}
use floww_backend.Billing.Turns.{Turns, freed}
use floww_backend.Billing.Outcomes.{
  subscription_deleted_ends, payment_failed_starts_grace, payment_succeeded_recovers,
  update_canceled_ends, top_level,
}
use floww_backend.Billing.Accounts.{Returned, Vanished, get_or_create_one}
use floww_backend.Billing.Limits.{
  Usage, Datetime, Namespace, completed, at_most, start_of_month,
  check_can_create_workflow_in_namespace, check_can_execute_workflow_in_org,
}
use floww_backend.Billing.Counts.{
  same_namespace, same_workflow, owned_workflows, monthly_executions, past,
}
use floww_backend.Billing.Enforcement.{
  month_window, create_workflow_enforced, execute_workflow_enforced,
}
use floww_backend.Billing.Sync.{
  sync_subscription_from_stripe, sync_organization, subscription_or_new, answer_stripe, finish,
  stripe_status_of, sync_status, sync_rest, copy_ids, or_keep, keep_or_start, synced,
}
use floww_backend.Billing.Agreement.{sync_again}

abbrev settings : Settings
settings = record {
  is_cloud = true;
  trial_period_days = 14;
  grace_period_days = 7;
  stripe_price_id_hobby = "price_hobby";
  stripe_price_id_team = "price_team";
}

abbrev hobbyist : Subscription
hobbyist = record {
  id = 1;
  organization_id = 7;
  stripe_customer_id = some "cus_1";
  stripe_subscription_id = some "sub_1";
  tier = hobby;
  status = past_due;
  trial_ends_at = none;
  current_period_end = some 40;
  grace_period_ends_at = some 50;
  cancel_at_period_end = false;
}

abbrev event : StripeObject
event = record {
  object_id = some "sub_1";
  customer = some "cus_1";
  subscription = some "sub_1";
  parent_subscription = some "sub_1";
  metadata_subscription_id = none;
  stripe_status = some "canceled";
  current_period_end_ts = some 9;
  trial_end_ts = none;
  cancel_at_end = true;
  price_ids = some "price_team" ∷ [];
}

abbrev table : Db
table = record {
  organizations = 7 ∷ [];
  subscriptions = hobbyist ∷ [];
  billing_events = [];
  default_payment_calls = [];
}

table-IsConsistent : IsConsistent table
unfolding consistent
table-IsConsistent = record { subscriptions = refl; events = refl }

nothing_recorded : recorded "evt_1" table ≡ false
unfolding recorded
nothing_recorded = refl

known : find (by_stripe_id (some "sub_1")) table.subscriptions ≡ some hobbyist
unfolding by_stripe_id column_is
known = refl

abbrev no_uuid : String → Option ℕ
no_uuid text = none

abbrev after_deletion : Db
after_deletion = record table {
  subscriptions = freed hobbyist ∷ [];
  billing_events = event_row (freed hobbyist) "customer.subscription.deleted" "evt_1" event ∷ [];
}

abbrev deletion : StripeEvent
deletion = record {
  event_type = "customer.subscription.deleted";
  event_data = event;
  event_id = "evt_1";
}

-- Stripe's verification of one payload with two signatures, each of them accepted for some time.
abbrev construct : ℕ → String → String → Verified
construct now payload sig =
    if (str_eq sig "v1" && ltb now 65) || (str_eq sig "v2" && ltb now 75)
    then verified deletion
    else invalid_signature

deletion_handled :
    stripe_webhook no_uuid settings construct 60 "body" (some "v1") table ≡ ok (tt, after_deletion)
unfolding stripe_webhook dispatch event_type_of handle_subscription_deleted is_duplicate_event
    query_subscription by_stripe_id column_is downgrade_to_free flush record_event insert_event
    consistent clash same_id clash_event put scalar_one_or_none of_event
deletion_handled = refl

stripe_webhook_idempotent_example :
    stripe_webhook no_uuid settings construct 70 "body" (some "v2") after_deletion
    ≡ ok (tt, after_deletion)
stripe_webhook_idempotent_example =
    stripe_webhook_idempotent no_uuid settings construct deletion "body" "body" (some "v1")
      (some "v2") "v1" "v2" 60 70 table after_deletion refl refl refl refl deletion_handled

subscription_deleted_ends_example :
    Turns (handle_subscription_deleted event "evt_1") "evt_1" hobbyist (freed hobbyist) table
    × ((now : ℕ) → (get_subscription_details now (freed hobbyist)).is_paid ≡ false)
subscription_deleted_ends_example =
    subscription_deleted_ends event "evt_1" "sub_1" hobbyist table table-IsConsistent
      nothing_recorded known refl

hobby-free : hobby ≢ free
hobby-free h = absurd (ground arith)

payment_failed_starts_grace_example :
    (r : Subscription) × Turns
      (handle_payment_failed_event settings 45 event "evt_1")
      "evt_1"
      hobbyist
      r
      table
    × ((later : ℕ) → (get_subscription_details later r).is_paid ≡ ltb later (45 + days 7))
payment_failed_starts_grace_example =
    payment_failed_starts_grace event "evt_1" "sub_1" hobbyist table table-IsConsistent
      nothing_recorded known settings 45 refl hobby-free

payment_succeeded_recovers_example :
    (r : Subscription) × Turns
      (handle_payment_succeeded_event event "evt_1")
      "evt_1"
      hobbyist
      r
      table
    × (r.grace_period_ends_at ≡ none)
    × ((later : ℕ) → (get_subscription_details later r).is_paid ≡ true)
    × (handle_payment_succeeded_event (top_level event "sub_1") "evt_1" table ≡ ok (tt, table))
payment_succeeded_recovers_example =
    payment_succeeded_recovers event "evt_1" "sub_1" hobbyist table table-IsConsistent
      nothing_recorded known refl refl hobby-free

update_canceled_ends_example :
    (r : Subscription) × Turns
      (handle_subscription_updated settings event "evt_1")
      "evt_1"
      hobbyist
      r
      table
    × ((later : ℕ) → (get_subscription_details later r).is_paid ≡ false)
    × (r.current_period_end ≡ from_timestamp (some 9))
    × (r.cancel_at_period_end ≡ true)
update_canceled_ends_example =
    update_canceled_ends event "evt_1" "sub_1" hobbyist table table-IsConsistent nothing_recorded
      known settings refl refl

is_paid_iff_example : ((get_subscription_details 49 hobbyist).is_paid ≡ true) ↔ Entitled 49 hobbyist
is_paid_iff_example = is_paid_iff 49 hobbyist

paid_then : (get_subscription_details 49 hobbyist).is_paid ≡ true
unfolding get_subscription_details is_subscription_active lies_ahead
paid_then = refl

is_paid_antitone_example : (get_subscription_details 10 hobbyist).is_paid ≡ true
is_paid_antitone_example = is_paid_antitone 10 49 hobbyist (omega arith) paid_then

details_limits_example :
    let d = get_subscription_details 60 hobbyist in
    (d.tier ≡ (if d.is_paid then hobby else free))
    × (plan_limits d.tier ≡ (d.workflow_limit, d.execution_limit_per_month))
    × (3 ≤ d.workflow_limit)
    × (100 ≤ d.execution_limit_per_month)
details_limits_example = details_limits 60 hobbyist

-- Another transaction inserts the row of organization 8 in the meantime.
abbrev rival : Subscription
rival = record hobbyist {
  id = 2;
  organization_id = 8;
  stripe_customer_id = none;
  stripe_subscription_id = none;
}

abbrev insert_rival : Db → Db
insert_rival db = record db { subscriptions = rival ∷ db.subscriptions }

raced-IsConsistent : IsConsistent (insert_rival table)
unfolding consistent clash
raced-IsConsistent = record { subscriptions = refl; events = refl }

unused_id : any (by_id 3) (insert_rival table).subscriptions ≡ false
unfolding by_id
unused_id = refl

get_or_create_one_example : Returned insert_rival 3 8 table ⊎ Vanished insert_rival 3 8 table
get_or_create_one_example =
    get_or_create_one insert_rival 3 8 table table-IsConsistent raced-IsConsistent unused_id

abbrev noon : ℕ → Datetime
noon day = record { year = 2025; month = 3; day = day; time = 43200000000 }

in_order : at_most (noon 2) (noon 9) ≡ true
unfolding at_most
in_order = refl

month_window_example : at_most (start_of_month (noon 9)) (noon 2) ≡ true
month_window_example = month_window (noon 9) (noon 2) (omega arith) in_order

abbrev namespace : Namespace
namespace = record { namespace_id = 4; organization_owner_id = some 7 }

abbrev usage : Usage
usage = record {
  namespaces = namespace ∷ [];
  workflows = record { workflow_id = 5; in_namespace = 4 } ∷ [];
  executions = record { of_workflow = 5; received_at = noon 2; status = completed } ∷ [];
}

organization_known : find (of_organization 7) table.subscriptions ≡ some hobbyist
unfolding of_organization
organization_known = refl

one_namespace : consistent same_namespace usage.namespaces ≡ true
unfolding consistent
one_namespace = refl

one_workflow : consistent same_workflow usage.workflows ≡ true
unfolding consistent
one_workflow = refl

received_before : all (past (noon 9)) usage.executions ≡ true
unfolding at_most
received_before = refl

create_workflow_enforced_example :
    check_can_create_workflow_in_namespace settings insert_rival 3 usage 60 4 table ≡ (
      if false
        || ltb
            (length (owned_workflows usage 7))
            (get_subscription_details 60 hobbyist).workflow_limit
      then ok (tt, table)
      else err (http_exception 402 "Workflow limit reached"))
create_workflow_enforced_example =
    create_workflow_enforced settings insert_rival 3 usage 60 7 hobbyist table table-IsConsistent
      organization_known one_namespace namespace refl refl

execute_workflow_enforced_example :
    check_can_execute_workflow_in_org settings insert_rival 3 usage 60 (noon 9) 7 table ≡ (
      if false
        || ltb
            (length (monthly_executions usage 7 (noon 9)))
            (get_subscription_details 60 hobbyist).execution_limit_per_month
      then ok (tt, table)
      else err (http_exception 402 "Execution limit reached"))
execute_workflow_enforced_example =
    execute_workflow_enforced settings insert_rival 3 usage 60 7 hobbyist table table-IsConsistent
      organization_known one_namespace (noon 9) one_workflow received_before

-- Stripe says that the subscription of the organization is past due.
abbrev late : StripeObject
late = record event { stripe_status = some "past_due" }

abbrev after_sync : Db
after_sync = record table {
  subscriptions =
      record hobbyist {
        tier = team;
        current_period_end = some 9_000_000;
        cancel_at_period_end = true;
      }
      ∷ [];
}

synced_once :
    sync_subscription_from_stripe settings 45 (some late) 3 7 table
    ≡ ok ((true, synced (some "past_due") team), after_sync)
unfolding sync_subscription_from_stripe sync_organization subscription_or_new answer_stripe finish
    stripe_status_of sync_status sync_rest copy_ids or_keep keep_or_start query_subscription
    of_organization flush consistent clash same_id put scalar_one_or_none sync_tier status_is
    from_timestamp
synced_once = refl

sync_again_example :
    sync_subscription_from_stripe settings 99 (some late) 6 7 after_sync
    ≡ ok ((true, synced (some "past_due") team), after_sync)
sync_again_example =
    sync_again settings 45 99 3 6 7 (some late) table after_sync
      (true, synced (some "past_due") team) table-IsConsistent synced_once
