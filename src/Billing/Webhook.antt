-- ===== src/Billing/Webhook.antt =====
-- The six handlers of Stripe events in app/services/billing_service.py. `parse_uuid` is Python's
-- `UUID(text)`, `none` where it raises. A handler that returns early is a `for_some` whose value is
-- missing.
use floww_backend.Prelude.{
  ℕ, Bool, ◌||◌, ◌&&◌, not, Option, none, some, List, [], ◌∷◌, ◌++◌, String, ◌==◌, select, is_some,
  truthy, same_text, if◌then◌else◌,
}
use floww_backend.Session.{
  Session, pure, lift, integrity_error, ok, err, ◌>>=◌, ◌>>◌, scalar_one_or_none,
}
use floww_backend.Table.{consistent}
use floww_backend.Billing.Data.{
  Subscription, SubscriptionStatus, StripeObject, BillingEvent, Db, Settings, hobby, team, active,
  past_due, clash_event, column_is, from_timestamp,
}
use floww_backend.Billing.Lifecycle.{
  query_subscription, flush, start_trial, activate_paid_subscription, start_grace_period,
  downgrade_to_free,
}

abbrev pub for_some : {A : Type 0} → Option A → (A → Session Db Unit) → Session Db Unit
for_some none f = pure tt
for_some (some a) f = f a

unfoldable pub of_event : String → BillingEvent → Bool
of_event stripe_event_id e = same_text e.stripe_event_id (some stripe_event_id)

unfoldable pub is_duplicate_event : String → Session Db Bool
unfolding of_event
is_duplicate_event stripe_event_id db =
    (do
      row ← lift (scalar_one_or_none (select (of_event stripe_event_id) db.billing_events))
      pure (is_some row))
      db

unfoldable pub insert_event : BillingEvent → Session Db Unit
insert_event event db =
    let rows = db.billing_events ++ event ∷ [] in
    if consistent clash_event rows
    then ok (tt, record db { billing_events = rows })
    else err integrity_error

abbrev pub event_row : Subscription → String → String → StripeObject → BillingEvent
event_row sub event_type stripe_event_id event_data = record {
  subscription_id = sub.id;
  event_type = event_type;
  stripe_event_id = some stripe_event_id;
  payload = event_data;
}

-- `_record_event`, whose flush writes the pending changes of the subscription too.
unfoldable pub record_event : Subscription → String → String → StripeObject → Session Db Unit
record_event sub event_type stripe_event_id event_data = do
  flush sub
  insert_event (event_row sub event_type stripe_event_id event_data)

unfoldable pub by_id : ℕ → Subscription → Bool
by_id n s = s.id == n

unfoldable pub by_stripe_id : Option String → Subscription → Bool
by_stripe_id i s = column_is s.stripe_subscription_id i

-- The loop that syncs the tier from the subscription items.
unfoldable pub sync_tier : Settings → List (Option String) → Subscription → Subscription
sync_tier cfg [] sub = sub
sync_tier cfg (price_id ∷ items) sub = sync_tier cfg items (
    if same_text price_id (some cfg.stripe_price_id_hobby)
    then record sub { tier = hobby }
    else if same_text price_id (some cfg.stripe_price_id_team)
    then record sub { tier = team }
    else sub)

unfoldable pub status_is : StripeObject → String → Bool
status_is e s = same_text e.stripe_status (some s)

-- The branches on the Stripe status in `handle_subscription_created`.
unfoldable pub created_status : Settings → ℕ → StripeObject → Subscription → Session Db Subscription
unfolding status_is from_timestamp
created_status cfg now e sub =
    if status_is e "trialing"
    then (do
      started ← start_trial cfg now sub (from_timestamp e.trial_end_ts)
      pure (record started {
        stripe_subscription_id = e.object_id;
        current_period_end = from_timestamp e.current_period_end_ts;
      }))
    else if status_is e "active" || status_is e "past_due"
    then elim (truthy e.object_id) [
      | none ↦ pure sub
      | some stripe_id ↦ elim (from_timestamp e.current_period_end_ts) [
        | none ↦ pure sub
        | some period_end ↦ activate_paid_subscription sub stripe_id period_end
      ]
    ]
    else pure sub

-- The branches on the Stripe status in `handle_subscription_updated`.
unfoldable pub updated_status : StripeObject → Subscription → Session Db Subscription
unfolding status_is
updated_status e sub =
    if status_is e "active"
    then pure (record sub { status = active; grace_period_ends_at = none })
    else if status_is e "past_due"
    then pure (record sub { status = past_due })
    else if status_is e "canceled"
    then downgrade_to_free sub
    else pure sub

-- The fields that an update copies from the event.
unfoldable pub copy_period : StripeObject → Subscription → Subscription
unfolding from_timestamp
copy_period e sub = record sub {
  current_period_end = from_timestamp e.current_period_end_ts;
  cancel_at_period_end = e.cancel_at_end;
}

-- `if not subscription.stripe_customer_id: subscription.stripe_customer_id = customer`
unfoldable pub set_customer : Option String → Subscription → Subscription
set_customer customer sub =
    if is_some (truthy customer) && not (is_some (truthy sub.stripe_customer_id))
    then record sub { stripe_customer_id = customer }
    else sub

unfoldable pub recover_active : SubscriptionStatus → Subscription → Subscription
recover_active past_due sub = record sub { status = active; grace_period_ends_at = none }
recover_active _ sub = sub

-- The call at Stripe, kept in the order of the calls.
unfoldable pub call_default_payment : Option String → String → Session Db Unit
call_default_payment none stripe_id db = ok (tt, db)
call_default_payment (some customer) stripe_id db = ok (
  tt,
  record db { default_payment_calls = db.default_payment_calls ++ (customer, stripe_id) ∷ [] },
)

module _ (parse_uuid : String → Option ℕ) where
  -- `metadata.subscription_id`, where it is there and is the text of a UUID.
  abbrev pub named_subscription : StripeObject → Option ℕ
  named_subscription e = elim (truthy e.metadata_subscription_id) [
    | none ↦ none
    | some text ↦ parse_uuid text
  ]

  unfoldable pub handle_checkout_completed : StripeObject → String → Session Db Unit
  unfolding set_customer by_id query_subscription
  handle_checkout_completed event_data event_id = do
    duplicate ← is_duplicate_event event_id
    if duplicate
        then pure tt
        else for_some (named_subscription event_data) λ subscription_id. do
          found ← query_subscription (by_id subscription_id)
          for_some found λ sub.
              record_event (set_customer event_data.customer sub) "checkout.session.completed"
                event_id event_data

  unfoldable pub handle_subscription_created :
      Settings → ℕ → StripeObject → String → Session Db Unit
  unfolding created_status by_id query_subscription
  handle_subscription_created cfg now event_data event_id = do
    duplicate ← is_duplicate_event event_id
    if duplicate
        then pure tt
        else for_some (named_subscription event_data) λ subscription_id. do
          found ← query_subscription (by_id subscription_id)
          for_some found λ sub. do
            changed ← created_status cfg now event_data sub
            record_event (sync_tier cfg event_data.price_ids changed)
                "customer.subscription.created" event_id event_data

unfoldable pub handle_subscription_updated : Settings → StripeObject → String → Session Db Unit
unfolding updated_status copy_period by_stripe_id query_subscription
handle_subscription_updated cfg event_data event_id = do
  duplicate ← is_duplicate_event event_id
  if duplicate then pure tt else do
    found ← query_subscription (by_stripe_id event_data.object_id)
    for_some found λ sub. do
      changed ← updated_status event_data sub
      let copied = copy_period event_data changed
      let synced =
          if status_is event_data "canceled"
          then copied
          else sync_tier cfg event_data.price_ids copied
      record_event synced "customer.subscription.updated" event_id event_data

unfoldable pub handle_subscription_deleted : StripeObject → String → Session Db Unit
unfolding by_stripe_id query_subscription
handle_subscription_deleted event_data event_id = do
  duplicate ← is_duplicate_event event_id
  if duplicate then pure tt else do
    found ← query_subscription (by_stripe_id event_data.object_id)
    for_some found λ sub. do
      changed ← downgrade_to_free sub
      record_event changed "customer.subscription.deleted" event_id event_data

unfoldable pub handle_payment_failed_event : Settings → ℕ → StripeObject → String → Session Db Unit
unfolding by_stripe_id query_subscription
handle_payment_failed_event cfg now event_data event_id = do
  duplicate ← is_duplicate_event event_id
  if duplicate
      then pure tt
      else for_some (truthy event_data.subscription) λ stripe_id. do
        found ← query_subscription (by_stripe_id (some stripe_id))
        for_some found λ sub. do
          changed ← start_grace_period cfg now sub
          record_event changed "invoice.payment_failed" event_id event_data

unfoldable pub handle_payment_succeeded_event : StripeObject → String → Session Db Unit
unfolding by_stripe_id query_subscription recover_active call_default_payment
handle_payment_succeeded_event event_data event_id = do
  duplicate ← is_duplicate_event event_id
  if duplicate
      then pure tt
      else for_some (truthy event_data.parent_subscription) λ stripe_id. do
        found ← query_subscription (by_stripe_id (some stripe_id))
        for_some found λ sub. do
          call_default_payment (truthy event_data.customer) stripe_id
          record_event (recover_active sub.status sub) "invoice.payment_succeeded" event_id
              event_data
