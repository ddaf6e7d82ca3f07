-- ===== src/Billing/Lifecycle.antt =====
-- How a subscription row is made and changed: `get_or_create_subscription` and the five changes of
-- app/services/billing_service.py. A change returns the row with its new values, flushed.
use floww_backend.Prelude.{
  ℕ, ◌+◌, Bool, true, false, ◌&&◌, any, Option, none, some, [], ◌∷◌, ◌++◌, String, ◌==◌, select,
  if◌then◌else◌,
}
use floww_backend.Session.{
  Session, pure, lift, integrity_error, ok, err, ◌>>=◌, scalar_one_or_none, scalar_one,
}
use floww_backend.Table.{consistent, clear, put}
use floww_backend.Billing.Data.{
  Subscription, Db, Settings, free, hobby, active, trialing, past_due, clash, same_id, days,
}

-- `session.flush()` with this row changed: the database checks the unique columns.
unfoldable pub flush : Subscription → Session Db Subscription
flush sub db =
    let rows = put same_id sub db.subscriptions in
    if consistent clash rows
    then ok (sub, record db { subscriptions = rows })
    else err integrity_error

abbrev pub new_subscription : ℕ → ℕ → Subscription
new_subscription new_id organization_id = record {
  id = new_id;
  organization_id = organization_id;
  stripe_customer_id = none;
  stripe_subscription_id = none;
  tier = free;
  status = active;
  trial_ends_at = none;
  current_period_end = none;
  grace_period_ends_at = none;
  cancel_at_period_end = false;
}

unfoldable pub of_organization : ℕ → Subscription → Bool
of_organization organization_id s = s.organization_id == organization_id

-- `select(Subscription).where(p)` and `scalar_one_or_none`.
unfoldable pub query_subscription : (Subscription → Bool) → Session Db (Option Subscription)
query_subscription p db = lift (scalar_one_or_none (select p db.subscriptions)) db

-- The foreign key `organization_id` of a new row.
abbrev pub organization_exists : ℕ → Db → Bool
organization_exists organization_id db = any (λ o. o == organization_id) db.organizations

-- The insert under the savepoint, on the tables as other transactions have left them: a row
-- that takes a unique value or names no organization is refused and leaves them so; then the row of
-- the organization is fetched.
unfoldable pub insert_or_refetch : (Db → Db) → ℕ → ℕ → Session Db Subscription
insert_or_refetch others new_id organization_id db =
    let row = new_subscription new_id organization_id in
    let db' = others db in
    if clear clash row db'.subscriptions && organization_exists organization_id db'
    then ok (row, record db' { subscriptions = db'.subscriptions ++ row ∷ [] })
    else lift (scalar_one (select (of_organization organization_id) db'.subscriptions)) db'

-- `others` is what other transactions commit between the first query and the insert.
unfoldable pub get_or_create_subscription : (Db → Db) → ℕ → ℕ → Session Db Subscription
get_or_create_subscription others new_id organization_id = do
  existing ← query_subscription (of_organization organization_id)
  elim existing [ some sub ↦ pure sub | none ↦ insert_or_refetch others new_id organization_id ]

or_default : Option ℕ → ℕ → ℕ
or_default (some t) d = t
or_default none d = d

unfoldable pub start_trial : Settings → ℕ → Subscription → Option ℕ → Session Db Subscription
unfolding flush or_default
start_trial cfg now sub trial_ends_at = flush (record sub {
  tier = hobby;
  status = trialing;
  trial_ends_at = some (or_default trial_ends_at (now + days cfg.trial_period_days));
})

unfoldable pub activate_paid_subscription : Subscription → String → ℕ → Session Db Subscription
unfolding flush
activate_paid_subscription sub stripe_subscription_id current_period_end = flush (record sub {
  status = active;
  stripe_subscription_id = some stripe_subscription_id;
  current_period_end = some current_period_end;
  trial_ends_at = none;
  grace_period_ends_at = none;
})

unfoldable pub cancel_subscription : Subscription → Session Db Subscription
unfolding flush
cancel_subscription sub = flush (record sub { cancel_at_period_end = true })

unfoldable pub start_grace_period : Settings → ℕ → Subscription → Session Db Subscription
unfolding flush
start_grace_period cfg now sub = flush (record sub {
  status = past_due;
  grace_period_ends_at = some (now + days cfg.grace_period_days);
})

unfoldable pub downgrade_to_free : Subscription → Session Db Subscription
unfolding flush
downgrade_to_free sub = flush (record sub {
  tier = free;
  status = active;
  stripe_subscription_id = none;
  current_period_end = none;
  trial_ends_at = none;
  grace_period_ends_at = none;
  cancel_at_period_end = false;
})
