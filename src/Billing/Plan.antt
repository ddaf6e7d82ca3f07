-- ===== src/Billing/Plan.antt =====
-- What a subscription entitles to: `PLAN_LIMITS`, `_is_subscription_active` and
-- `get_subscription_details` of app/services/billing_service.py.
use floww_backend.Prelude.{ℕ, Bool, true, false, Option, none, some, String, ltb, if◌then◌else◌}
use floww_backend.Billing.Data.{
  Subscription, SubscriptionTier, SubscriptionStatus, free, hobby, team, active, trialing, past_due,
  canceled, incomplete,
}

unfoldable pub plan_limits : SubscriptionTier → ℕ × ℕ
plan_limits free = (3, 100)
plan_limits hobby = (100, 10_000)
plan_limits team = (100, 50_000)

unfoldable pub plan_names : SubscriptionTier → String
plan_names free = "Free"
plan_names hobby = "Hobby"
plan_names team = "Team"

pub record SubscriptionDetails : Type 0 where
  pub tier : SubscriptionTier
  pub plan_name : String
  pub workflow_limit : ℕ
  pub execution_limit_per_month : ℕ
  pub is_paid : Bool

-- `bool(deadline and deadline > now)`
unfoldable pub lies_ahead : ℕ → Option ℕ → Bool
lies_ahead now none = false
lies_ahead now (some deadline) = ltb now deadline

active_by_status : ℕ → Subscription → SubscriptionStatus → Bool
unfolding lies_ahead
active_by_status now s trialing = lies_ahead now s.trial_ends_at
active_by_status now s active = true
active_by_status now s past_due = lies_ahead now s.grace_period_ends_at
active_by_status now s canceled = false
active_by_status now s incomplete = false

active_by_tier : ℕ → Subscription → SubscriptionTier → Bool
unfolding active_by_status
active_by_tier now s free = false
active_by_tier now s hobby = active_by_status now s s.status
active_by_tier now s team = active_by_status now s s.status

unfoldable pub is_subscription_active : ℕ → Subscription → Bool
unfolding active_by_tier
is_subscription_active now s = active_by_tier now s s.tier

details_of : SubscriptionTier → Bool → SubscriptionDetails
unfolding plan_limits plan_names
details_of tier paid =
    let (workflows, executions) = plan_limits tier in
    record {
      tier = tier;
      plan_name = plan_names tier;
      workflow_limit = workflows;
      execution_limit_per_month = executions;
      is_paid = paid;
    }

unfoldable pub get_subscription_details : ℕ → Subscription → SubscriptionDetails
unfolding is_subscription_active details_of
get_subscription_details now s =
    if is_subscription_active now s then details_of s.tier true else details_of free false

unfoldable pub has_active_hobby_subscription : ℕ → Subscription → Bool
unfolding get_subscription_details
has_active_hobby_subscription now s = (get_subscription_details now s).is_paid
