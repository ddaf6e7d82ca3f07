-- ===== src/Billing/TierSync.antt =====
-- The loop of app/services/billing_service.py that takes the tier from the subscription items.
use floww_backend.Prelude.{
  ◌≡◌, refl, ◌⊎◌, inl, inr, Bool-cases, Option, some, List, [], ◌∷◌, String, same_text, arith,
  if◌then◌else◌,
}
use floww_backend.Billing.Data.{Subscription, SubscriptionTier, Settings, hobby, team}
use floww_backend.Billing.Webhook.{sync_tier}

-- The tier that the items leave: the last item with a known price decides.
unfoldable pub tier_of : Settings → List (Option String) → SubscriptionTier → SubscriptionTier
tier_of cfg [] tier = tier
tier_of cfg (price_id ∷ items) tier = tier_of cfg items (
    if same_text price_id (some cfg.stripe_price_id_hobby)
    then hobby
    else if same_text price_id (some cfg.stripe_price_id_team)
    then team
    else tier)

pub sync_tier_lem :
    (cfg : Settings) (items : List (Option String)) (s : Subscription)
    → sync_tier cfg items s ≡ record s { tier = tier_of cfg items s.tier }
unfolding sync_tier tier_of
sync_tier_lem cfg [] s = refl
sync_tier_lem cfg (p ∷ items) s = ground (
  arith,
  sync_tier_lem cfg items (record s { tier = hobby }),
  sync_tier_lem cfg items (record s { tier = team }),
  sync_tier_lem cfg items s,
)

-- Either the items decide the tier, whatever it was, or they leave it.
tier_of-cases :
    (cfg : Settings) (items : List (Option String))
    → ((a b : SubscriptionTier) → tier_of cfg items a ≡ tier_of cfg items b)
      ⊎ ((a : SubscriptionTier) → tier_of cfg items a ≡ a)
unfolding tier_of
tier_of-cases cfg [] = inr (λ a. refl)
tier_of-cases cfg (p ∷ items) = elim (Bool-cases (same_text p (some cfg.stripe_price_id_hobby))) [
  | inl h ↦ inl (λ a b. rw h refl)
  | inr h ↦ elim (Bool-cases (same_text p (some cfg.stripe_price_id_team))) [
    | inl k ↦ inl (λ a b. rw (h, k) refl)
    | inr k ↦ elim (tier_of-cases cfg items) [
      | inl fixed ↦ inl (λ a b. rw (h, k) (fixed a b))
      | inr kept ↦ inr (λ a. rw (h, k) (kept a))
    ]
  ]
]

pub tier_of_idem :
    (cfg : Settings) (items : List (Option String)) (a : SubscriptionTier)
    → tier_of cfg items (tier_of cfg items a) ≡ tier_of cfg items a
tier_of_idem cfg items a = elim (tier_of-cases cfg items) [
  | inl fixed ↦ fixed (tier_of cfg items a) a
  | inr kept ↦ kept (tier_of cfg items a)
]
