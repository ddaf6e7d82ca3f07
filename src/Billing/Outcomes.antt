-- ===== src/Billing/Outcomes.antt =====
-- What a new event does to the subscription that it is about, for the handlers of
-- app/services/billing_service.py: the row afterwards, and what the organization is entitled to.
use floww_backend.Prelude.{
  ℕ, ◌+◌, ◌≡◌, ◌≢◌, refl, ◌∙◌, inr, Bool, true, false, none, some, String, find, arith, truthy, ltb,
}
use floww_backend.Session.{ok, ◌>>=◌}
use floww_backend.Billing.Data.{
  Subscription, StripeObject, Db, Settings, free, active, past_due, days, from_timestamp,
}
use floww_backend.Billing.Plan.{get_subscription_details, is_subscription_active}
use floww_backend.Billing.Lifecycle.{downgrade_to_free, start_grace_period}
use floww_backend.Billing.Webhook.{
  handle_subscription_updated, handle_subscription_deleted, handle_payment_failed_event,
  handle_payment_succeeded_event, by_stripe_id, copy_period, call_default_payment,
}
use floww_backend.Billing.Constraints.{
  IsConsistent, recorded, is_duplicate_event-recorded, by_stripe_id-PicksUnique,
}
use floww_backend.Billing.Runs.{
  Fits, kept-Fits, store, record_event-Fits, store-recorded, flush_then_record, new_event_run,
  named_event_run,
}
use floww_backend.Billing.Turns.{
  Updates, store-Updates, Turns, stores-Turns, freed, freed-Keeps, kept-Keeps,
  call_default_payment_lem, canceled_run,
}

-- The event names the subscription at its top level only.
abbrev pub top_level : StripeObject → String → StripeObject
top_level e k = record e { subscription = some k; parent_subscription = none }

module _ (e : StripeObject) (i k : String) (s : Subscription) (db : Db) (valid : IsConsistent db)
    (new : recorded i db ≡ false)
    (found : find (by_stripe_id (some k)) db.subscriptions ≡ some s) where
  -- On a consistent database, a new deletion event of a known Stripe subscription is handled:
  -- its row and no other changes, the event is recorded, and the row left is not a paid one at
  -- any time.
  pub subscription_deleted_ends :
      e.object_id ≡ some k
      → Turns (handle_subscription_deleted e i) i s (freed s) db
        × ((now : ℕ) → (get_subscription_details now (freed s)).is_paid ≡ false)
  unfolding handle_subscription_deleted downgrade_to_free get_subscription_details
      is_subscription_active
  subscription_deleted_ends named = (
    stores-Turns (by_stripe_id (some k)) (handle_subscription_deleted e i) (freed s) s
        "customer.subscription.deleted" i e db found refl
        (rw named (
            new_event_run (by_stripe_id (some k)) _ i s db (by_stripe_id-PicksUnique k) valid new
              found)
          ∙ flush_then_record (λ r. r) (freed s) _ i e db valid new fits fits refl),
    λ now. refl,
  )
    where
      fits : Fits (freed s) db
      fits = kept-Fits (by_stripe_id (some k)) (freed s) s db valid found (freed-Keeps s)

  -- On a consistent database, a new failed payment of a known, not free subscription is handled:
  -- its row and no other changes, the event is recorded, and the organization is a paying one
  -- for exactly the grace period, counted from the event.
  pub payment_failed_starts_grace :
      (cfg : Settings) (now : ℕ)
      → truthy e.subscription ≡ some k
      → s.tier ≢ free
      → (r : Subscription) × Turns (handle_payment_failed_event cfg now e i) i s r db
        × ((later : ℕ)
            → (get_subscription_details later r).is_paid
              ≡ ltb later (now + days cfg.grace_period_days))
  unfolding handle_payment_failed_event start_grace_period get_subscription_details
      is_subscription_active
  payment_failed_starts_grace cfg now named paying = (
    r,
    stores-Turns query (handle_payment_failed_event cfg now e i) r s _ i e db found refl (
        named_event_run (truthy e.subscription) k (λ j. by_stripe_id (some j)) _ i s db named
          (by_stripe_id-PicksUnique k) valid new found
        ∙ flush_then_record (λ x. x) r _ i e db valid new fits fits refl),
    λ later. ground arith,
  )
    where
      query : Subscription → Bool
      query = by_stripe_id (some k)

      r : Subscription
      r = record s {
        status = past_due;
        grace_period_ends_at = some (now + days cfg.grace_period_days);
      }

      fits : Fits r db
      fits = kept-Fits query r s db valid found (kept-Keeps r s refl refl refl refl)

  -- On a consistent database, a new successful payment whose object names, under
  -- parent.subscription_details, a known, not free subscription that is past due is handled: its
  -- row and no other changes, the event is recorded, no grace period is left to run, and the row
  -- left is a paid one at any time. The same event with the subscription under the top-level key
  -- alone changes nothing and is not recorded.
  pub payment_succeeded_recovers :
      truthy e.parent_subscription ≡ some k
      → s.status ≡ past_due
      → s.tier ≢ free
      → (r : Subscription) × Turns (handle_payment_succeeded_event e i) i s r db
        × (r.grace_period_ends_at ≡ none)
        × ((later : ℕ) → (get_subscription_details later r).is_paid ≡ true)
        × (handle_payment_succeeded_event (top_level e k) i db ≡ ok (tt, db))
  unfolding handle_payment_succeeded_event get_subscription_details is_subscription_active
  payment_succeeded_recovers named late paying = (
    r,
    (
      store r text i e called,
      named_event_run (truthy e.parent_subscription) k (λ j. by_stripe_id (some j)) _ i s db named
            (by_stripe_id-PicksUnique k) valid new found
          ∙ rw (call.1, ◌>>=◌)
              (rw late (record_event-Fits r text i e called kept (unfold recorded in new) fits)),
      record { rows = done.rows; remembered = done.remembered },
    ),
    refl,
    (λ later. ground arith),
    rw (is_duplicate_event-recorded i db valid.events, ◌>>=◌) (rw new refl),
  )
    where
      query : Subscription → Bool
      query = by_stripe_id (some k)

      text : String
      text = "invoice.payment_succeeded"

      r : Subscription
      r = record s { status = active; grace_period_ends_at = none }

      call :
          (calls : _) × (call_default_payment (truthy e.customer) k db
            ≡ ok (tt, record db { default_payment_calls = calls }))
      call = call_default_payment_lem (truthy e.customer) k db

      called : Db
      called = record db { default_payment_calls = call.0 }

      kept : IsConsistent called
      kept = record { subscriptions = valid.subscriptions; events = valid.events }

      fits : Fits r called
      fits = kept-Fits query r s called kept found (kept-Keeps r s refl refl refl refl)

      done : Updates i s r called (store r text i e called)
      done = store-Updates query r s text i e called found refl (store-recorded r text i e called)

  -- On a consistent database, a new update event of a known subscription that says "canceled" is
  -- handled: its row and no other changes, the event is recorded, and the row left is not a paid
  -- one at any time; but it has the period end and the cancellation flag of the event, which the
  -- downgrade to the free tier clears.
  pub update_canceled_ends :
      (cfg : Settings)
      → e.object_id ≡ some k
      → e.stripe_status ≡ some "canceled"
      → (r : Subscription) × Turns (handle_subscription_updated cfg e i) i s r db
        × ((later : ℕ) → (get_subscription_details later r).is_paid ≡ false)
        × (r.current_period_end ≡ from_timestamp e.current_period_end_ts)
        × (r.cancel_at_period_end ≡ e.cancel_at_end)
  unfolding handle_subscription_updated copy_period downgrade_to_free get_subscription_details
      is_subscription_active
  update_canceled_ends cfg named gone = (
    r,
    stores-Turns query (handle_subscription_updated cfg e i) r s text i e db found refl (
        rw named (new_event_run query _ i s db (by_stripe_id-PicksUnique k) valid new found)
        ∙ canceled_run cfg e i s db gone valid new
            (kept-Fits query (freed s) s db valid found (freed-Keeps s)) fits),
    (λ later. refl),
    refl,
    refl,
  )
    where
      query : Subscription → Bool
      query = by_stripe_id (some k)

      text : String
      text = "customer.subscription.updated"

      r : Subscription
      r = copy_period e (freed s)

      fits : Fits r db
      fits = kept-Fits query r s db valid found (record {
        same_row = refl;
        same_organization = refl;
        same_customer = refl;
        same_subscription = inr refl;
      })
