-- ===== src/Billing/Data.antt =====
-- The rows and settings of the billing code: `Subscription`, `BillingEvent` and their enums of
-- app/models.py, the fields that app/services/billing_service.py reads of a Stripe object, and the
-- settings it uses. Identifiers of rows are numbers, as they are only compared; a datetime is its
-- microseconds since the epoch.
use floww_backend.Prelude.{
  ℕ, ◌*◌, zero, suc, Bool, true, false, ◌||◌, Option, none, some, List, String, same_text, ◌==◌,
  str_eq,
}

pub data SubscriptionTier : Type 0 where
  free hobby team : SubscriptionTier

pub data SubscriptionStatus : Type 0 where
  active trialing past_due canceled incomplete : SubscriptionStatus

pub record Subscription : Type 0 where
  pub id : ℕ
  pub organization_id : ℕ
  pub stripe_customer_id : Option String
  pub stripe_subscription_id : Option String
  pub tier : SubscriptionTier
  pub status : SubscriptionStatus
  pub trial_ends_at : Option ℕ
  pub current_period_end : Option ℕ
  pub grace_period_ends_at : Option ℕ
  pub cancel_at_period_end : Bool

-- The fields of `event["data"]["object"]` (or of a subscription that Stripe returns) that are read:
-- a missing key is `none`, and `False` for `cancel_at_period_end`. `price_ids` holds the price of
-- each entry of `items.data`, and `parent_subscription` is
-- `parent.subscription_details.subscription`.
pub record StripeObject : Type 0 where
  pub object_id : Option String
  pub customer : Option String
  pub subscription : Option String
  pub parent_subscription : Option String
  pub metadata_subscription_id : Option String
  pub stripe_status : Option String
  pub current_period_end_ts : Option ℕ
  pub trial_end_ts : Option ℕ
  pub cancel_at_end : Bool
  pub price_ids : List (Option String)

pub record BillingEvent : Type 0 where
  pub subscription_id : ℕ
  pub event_type : String
  pub stripe_event_id : Option String
  pub payload : StripeObject

pub record Settings : Type 0 where
  pub is_cloud : Bool
  pub trial_period_days : ℕ
  pub grace_period_days : ℕ
  pub stripe_price_id_hobby : String
  pub stripe_price_id_team : String

-- The tables, with the calls that changed something at Stripe: `(customer, subscription)` for each
-- call of `set_default_payment_method_if_none`.
pub record Db : Type 0 where
  pub organizations : List ℕ
  pub subscriptions : List Subscription
  pub billing_events : List BillingEvent
  pub default_payment_calls : List (String × String)

-- The primary key and the unique columns of `subscriptions`.
unfoldable pub clash : Subscription → Subscription → Bool
clash a b =
    a.id == b.id
    || (a.organization_id == b.organization_id
        || (same_text a.stripe_customer_id b.stripe_customer_id
            || same_text a.stripe_subscription_id b.stripe_subscription_id))

unfoldable pub same_id : Subscription → Subscription → Bool
same_id a b = a.id == b.id

-- The unique column of `billing_events`.
unfoldable pub clash_event : BillingEvent → BillingEvent → Bool
clash_event a b = same_text a.stripe_event_id b.stripe_event_id

-- `column == value` where the value may be `None`: SQLAlchemy then writes `IS NULL`.
unfoldable pub column_is : Option String → Option String → Bool
column_is none none = true
column_is none (some _) = false
column_is (some _) none = false
column_is (some s) (some t) = str_eq s t

-- `datetime.fromtimestamp(ts, tz=timezone.utc) if ts else None`, from seconds.
unfoldable pub from_timestamp : Option ℕ → Option ℕ
from_timestamp none = none
from_timestamp (some zero) = none
from_timestamp (some (suc n)) = some (suc n * 1000000)

-- `timedelta(days=n)`
abbrev pub days : ℕ → ℕ
days n = n * 86400000000
