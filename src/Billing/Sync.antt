-- ===== src/Billing/Sync.antt =====
-- `sync_subscription_from_stripe` of app/services/billing_service.py: the organization's row is made
-- to agree with what Stripe returns for it. `stripe_sub` is the answer of
-- `find_subscription_by_organization`.
use floww_backend.Prelude.{
  ℕ, ◌+◌, Bool, true, false, Option, none, some, [], ◌∷◌, ◌++◌, String, ◌==◌, truthy, any,
  if◌then◌else◌,
}
use floww_backend.Session.{Session, ok, err, pure, integrity_error, ◌>>=◌, ◌>>◌}
use floww_backend.Table.{consistent}
use floww_backend.Billing.Data.{
  Subscription, SubscriptionTier, StripeObject, Db, Settings, free, active, trialing, past_due,
  canceled, incomplete, clash, from_timestamp, days,
}
use floww_backend.Billing.Lifecycle.{flush, query_subscription, of_organization, new_subscription}
use floww_backend.Billing.Webhook.{sync_tier, status_is}

-- The texts that the sync answers with.
pub data SyncMessage : Type 0 where
  organization_not_found no_stripe_subscription downgraded_canceled downgraded_expired : SyncMessage
  synced : Option String → SubscriptionTier → SyncMessage

-- The value that Stripe names, or the one that is there.
unfoldable pub or_keep : Option String → Option String → Option String
or_keep none old = old
or_keep (some new) old = some new

-- The two identifiers that are copied where Stripe names them.
unfoldable pub copy_ids : StripeObject → Subscription → Subscription
copy_ids e sub = record sub {
  stripe_subscription_id = or_keep (truthy e.object_id) sub.stripe_subscription_id;
  stripe_customer_id = or_keep (truthy e.customer) sub.stripe_customer_id;
}

unfoldable pub keep_or_start : Option ℕ → ℕ → Option ℕ
keep_or_start none deadline = some deadline
keep_or_start (some t) deadline = some t

-- What the branches on the Stripe status leave: a row that is flushed at once with its answer, or
-- one that goes on to the period and the tier.
pub data Branch : Type 0 where
  leave : Subscription → SyncMessage → Branch
  go_on : Subscription → Branch

-- The status texts that the sync tells apart, and any other.
pub data StripeStatus : Type 0 where
  is_active is_trialing is_past_due is_canceled is_incomplete is_incomplete_expired is_other :
      StripeStatus

unfoldable pub stripe_status_of : StripeObject → StripeStatus
unfolding status_is
stripe_status_of e =
    if status_is e "active"
    then is_active
    else if status_is e "trialing"
    then is_trialing
    else if status_is e "past_due"
    then is_past_due
    else if status_is e "canceled"
    then is_canceled
    else if status_is e "incomplete"
    then is_incomplete
    else if status_is e "incomplete_expired"
    then is_incomplete_expired
    else is_other

unfoldable pub sync_status : Settings → ℕ → StripeObject → StripeStatus → Subscription → Branch
sync_status cfg now e is_active sub =
    go_on (record sub { status = active; trial_ends_at = none; grace_period_ends_at = none })
sync_status cfg now e is_trialing sub =
    go_on (record sub { status = trialing; trial_ends_at = from_timestamp e.trial_end_ts })
sync_status cfg now e is_past_due sub = go_on (record sub {
  status = past_due;
  grace_period_ends_at = keep_or_start sub.grace_period_ends_at (now + days cfg.grace_period_days);
})
sync_status cfg now e is_canceled sub =
    leave
      (record sub {
        tier = free;
        status = canceled;
        stripe_subscription_id = none;
        trial_ends_at = none;
        current_period_end = none;
        grace_period_ends_at = none;
        cancel_at_period_end = false;
      })
      downgraded_canceled
sync_status cfg now e is_incomplete sub = go_on (record sub { status = incomplete })
sync_status cfg now e is_incomplete_expired sub =
    leave (record sub { tier = free; status = active; stripe_subscription_id = none })
      downgraded_expired
sync_status cfg now e is_other sub = go_on sub

-- The period, the cancellation flag and the tier, for a row that goes on.
unfoldable pub sync_rest : Settings → StripeObject → Subscription → Subscription
sync_rest cfg e sub = sync_tier cfg e.price_ids (record sub {
  current_period_end = from_timestamp e.current_period_end_ts;
  cancel_at_period_end = e.cancel_at_end;
})

unfoldable pub finish : Settings → StripeObject → Branch → Session Db (Bool × SyncMessage)
finish cfg e (leave sub message) = do flush sub; pure (true, message)
finish cfg e (go_on sub) = do
  done ← flush (sync_rest cfg e sub)
  pure (true, synced e.stripe_status done.tier)

-- `organization.subscription`, made if it is missing.
unfoldable pub subscription_or_new : ℕ → ℕ → Session Db Subscription
subscription_or_new new_id organization_id = do
  existing ← query_subscription (of_organization organization_id)
  elim existing [
    | some sub ↦ pure sub
    | none ↦ λ db.
        let row = new_subscription new_id organization_id in
        let rows = db.subscriptions ++ row ∷ [] in
        if consistent clash rows
        then ok (row, record db { subscriptions = rows })
        else err integrity_error
  ]

-- What follows once the organization has a row.
unfoldable pub answer_stripe :
    Settings → ℕ → Option StripeObject → Subscription → Session Db (Bool × SyncMessage)
answer_stripe cfg now none sub = pure (false, no_stripe_subscription)
answer_stripe cfg now (some e) sub =
    finish cfg e (sync_status cfg now e (stripe_status_of e) (copy_ids e sub))

unfoldable pub sync_organization :
    Settings → ℕ → Option StripeObject → ℕ → ℕ → Session Db (Bool × SyncMessage)
sync_organization cfg now stripe_sub new_id organization_id = do
  sub ← subscription_or_new new_id organization_id
  answer_stripe cfg now stripe_sub sub

unfoldable pub sync_subscription_from_stripe :
    Settings → ℕ → Option StripeObject → ℕ → ℕ → Session Db (Bool × SyncMessage)
sync_subscription_from_stripe cfg now stripe_sub new_id organization_id db =
    if any (λ o. o == organization_id) db.organizations
    then sync_organization cfg now stripe_sub new_id organization_id db
    else ok ((false, organization_not_found), db)
