-- ===== src/Billing/Entitlement.antt =====
-- When a subscription is paid for, and which limits follow, for app/services/billing_service.py.
use floww_backend.Prelude.{
  ℕ, ◌≤◌, ◌<◌, ◌≡◌, ◌≢◌, ◌↔◌, ◌⊎◌, inl, inr, refl, true, some, none, arith, if◌then◌else◌,
}
use floww_backend.Billing.Data.{
  Subscription, SubscriptionTier, free, hobby, team, active, trialing, past_due, canceled,
  incomplete,
}
use floww_backend.Billing.Plan.{
  plan_limits, get_subscription_details, is_subscription_active, lies_ahead,
}

-- The reasons for which an organization is a paying one at a time.
pub data Entitled (now : ℕ) (s : Subscription) : Type 0 where
  by_payment : s.tier ≢ free → s.status ≡ active → Entitled now s
  by_trial :
      (deadline : ℕ)
      → s.tier ≢ free
      → s.status ≡ trialing
      → s.trial_ends_at ≡ some deadline
      → now < deadline
      → Entitled now s
  by_grace :
      (deadline : ℕ)
      → s.tier ≢ free
      → s.status ≡ past_due
      → s.grace_period_ends_at ≡ some deadline
      → now < deadline
      → Entitled now s

lies_ahead-some : (now : ℕ) (o : _) → lies_ahead now o ≡ true → (t : ℕ) × (o ≡ some t) × (now < t)
unfolding lies_ahead
lies_ahead-some now none h = absurd (ground arith)
lies_ahead-some now (some t) h = (t, refl, ground arith)

Entitled-sound : (now : ℕ) (s : Subscription) → is_subscription_active now s ≡ true → Entitled now s
unfolding is_subscription_active
Entitled-sound now s h = go s.tier refl s.status refl
  where
    go : (t : SubscriptionTier) → s.tier ≡ t → (st : _) → s.status ≡ st → Entitled now s
    go t e active f = by_payment (ground arith) f
    go t e trialing f =
        let d = lies_ahead-some now s.trial_ends_at (ground arith) in
        by_trial d.0 (ground arith) f d.1 d.2
    go t e past_due f =
        let d = lies_ahead-some now s.grace_period_ends_at (ground arith) in
        by_grace d.0 (ground arith) f d.1 d.2
    go t e canceled f = absurd (ground arith)
    go t e incomplete f = absurd (ground arith)

tier-cases : (t : SubscriptionTier) → t ≢ free → (t ≡ hobby) ⊎ (t ≡ team)
tier-cases free h = absurd (h refl)
tier-cases hobby h = inl refl
tier-cases team h = inr refl

Entitled-complete :
    (now : ℕ) (s : Subscription) → Entitled now s → is_subscription_active now s ≡ true
unfolding is_subscription_active
Entitled-complete now s (by_payment t st) = ground (arith, tier-cases s.tier t)
Entitled-complete now s (by_trial d t st e l) = ground (arith, tier-cases s.tier t)
Entitled-complete now s (by_grace d t st e l) = ground (arith, tier-cases s.tier t)

-- The details say that a subscription is paid exactly when its tier is not the free one and it
-- is active, in a trial that has not ended, or past due within its grace period.
pub is_paid_iff :
    (now : ℕ) (s : Subscription)
    → ((get_subscription_details now s).is_paid ≡ true) ↔ Entitled now s
unfolding get_subscription_details
is_paid_iff now s =
    ((λ h. Entitled-sound now s (ground arith)), (λ e. ground (arith, Entitled-complete now s e)))

-- A subscription that nothing changes only loses its entitlement as time passes: paid at a later
-- time, it was paid at any earlier one.
pub is_paid_antitone :
    (earlier later : ℕ) (s : Subscription)
    → earlier ≤ later
    → (get_subscription_details later s).is_paid ≡ true
    → (get_subscription_details earlier s).is_paid ≡ true
unfolding get_subscription_details is_subscription_active
is_paid_antitone earlier later s h p = ground arith

-- The details name the tier of the subscription while it is paid and the free tier otherwise,
-- carry the plan limits of the tier that they name, and never limit below 3 workflows and 100
-- executions.
pub details_limits :
    (now : ℕ) (s : Subscription)
    → let d = get_subscription_details now s in
      (d.tier ≡ (if d.is_paid then s.tier else free))
      × (plan_limits d.tier ≡ (d.workflow_limit, d.execution_limit_per_month))
      × (3 ≤ d.workflow_limit)
      × (100 ≤ d.execution_limit_per_month)
unfolding get_subscription_details is_subscription_active
details_limits now s = ground arith
