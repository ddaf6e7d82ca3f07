-- ===== src/Billing/Idempotence.antt =====
-- Repeated deliveries to the webhook of app/routes/billing.py.
use floww_backend.Prelude.{
  truthy, ℕ, ◌≡◌, refl, inl, inr, true, Option, some, String, Bool-cases, arith, truthy, subst, sym,
}
use floww_backend.Session.{ok}
use floww_backend.Billing.Data.{StripeObject, Db, Settings}
use floww_backend.Billing.Webhook.{
  handle_checkout_completed, handle_subscription_created, handle_subscription_updated,
  handle_subscription_deleted, handle_payment_failed_event, handle_payment_succeeded_event,
  created_status, updated_status, sync_tier, call_default_payment, recover_active,
}
use floww_backend.Billing.Route.{
  dispatch, stripe_webhook, handle_verified, Verified, verified, StripeEvent, EventType,
  checkout_completed, subscription_created, subscription_updated, subscription_deleted,
  payment_failed, payment_succeeded, other_event, event_type_of,
}
use floww_backend.Billing.Lifecycle.{downgrade_to_free, start_grace_period}
use floww_backend.Billing.Constraints.{IsConsistent, recorded, record_event-ok}
use floww_backend.Billing.Settling.{
  Settles, Settles-pure, Settles-for_some, unless_duplicate-Settles, with_subscription-Settles,
  bind-record, unless_duplicate-recorded,
}

module _ (parse : String → Option ℕ) (cfg : Settings) (e : StripeObject) (i : String)
    (db : Db) where
  checkout-Settles : Settles i db (λ now. handle_checkout_completed parse e i)
  unfolding handle_checkout_completed
  checkout-Settles = unless_duplicate-Settles i db _ (
      Settles-for_some i db _ _
        λ n. with_subscription-Settles i db _ _ λ now s db'. record_event-ok _ _ i e db db')

  created-Settles : Settles i db (λ now. handle_subscription_created parse cfg now e i)
  unfolding handle_subscription_created
  created-Settles = unless_duplicate-Settles i db _ (
      Settles-for_some i db _ _ λ n. with_subscription-Settles i db _ _ λ now s db'.
        bind-record i "customer.subscription.created" e (created_status cfg now e s)
          (sync_tier cfg e.price_ids) db db')

  updated-Settles : Settles i db (λ now. handle_subscription_updated cfg e i)
  unfolding handle_subscription_updated
  updated-Settles = unless_duplicate-Settles i db _ (
      with_subscription-Settles i db _ _
        λ now s db'. bind-record i "customer.subscription.updated" e (updated_status e s) _ db db')

  deleted-Settles : Settles i db (λ now. handle_subscription_deleted e i)
  unfolding handle_subscription_deleted
  deleted-Settles = unless_duplicate-Settles i db _ (
      with_subscription-Settles i db _ _ λ now s db'.
        bind-record i "customer.subscription.deleted" e (downgrade_to_free s) (λ r. r) db db')

  failed-Settles : Settles i db (λ now. handle_payment_failed_event cfg now e i)
  unfolding handle_payment_failed_event
  failed-Settles = unless_duplicate-Settles i db _ (
      Settles-for_some i db _ _ λ n. with_subscription-Settles i db _ _ λ now s db'.
        bind-record i "invoice.payment_failed" e (start_grace_period cfg now s) (λ r. r) db db')

  succeeded-Settles : Settles i db (λ now. handle_payment_succeeded_event e i)
  unfolding handle_payment_succeeded_event
  succeeded-Settles = unless_duplicate-Settles i db _ (
      Settles-for_some i db _ _ λ n. with_subscription-Settles i db _ _ λ now s db'.
        bind-record i "invoice.payment_succeeded" e (call_default_payment (truthy e.customer) n)
          (λ _. recover_active s.status s) db db')

  dispatch-Settles : (t : EventType) → Settles i db (λ now. dispatch parse cfg t now e i)
  unfolding dispatch
  dispatch-Settles checkout_completed = checkout-Settles
  dispatch-Settles subscription_created = created-Settles
  dispatch-Settles subscription_updated = updated-Settles
  dispatch-Settles subscription_deleted = deleted-Settles
  dispatch-Settles payment_failed = failed-Settles
  dispatch-Settles payment_succeeded = succeeded-Settles
  dispatch-Settles other_event = Settles-pure i db

  dispatch-recorded :
      (t : EventType) (now : ℕ)
      → recorded i db ≡ true
      → IsConsistent db
      → dispatch parse cfg t now e i db ≡ ok (tt, db)
  unfolding dispatch handle_checkout_completed handle_subscription_created
      handle_subscription_updated handle_subscription_deleted handle_payment_failed_event
      handle_payment_succeeded_event
  dispatch-recorded checkout_completed now r c = unless_duplicate-recorded i db _ r c
  dispatch-recorded subscription_created now r c = unless_duplicate-recorded i db _ r c
  dispatch-recorded subscription_updated now r c = unless_duplicate-recorded i db _ r c
  dispatch-recorded subscription_deleted now r c = unless_duplicate-recorded i db _ r c
  dispatch-recorded payment_failed now r c = unless_duplicate-recorded i db _ r c
  dispatch-recorded payment_succeeded now r c = unless_duplicate-recorded i db _ r c
  dispatch-recorded other_event now r c = refl

handled-again :
    (parse : String → Option ℕ) (cfg : Settings) (t : EventType) (e : StripeObject) (i : String)
    (now again : ℕ) (db db' : Db)
    → dispatch parse cfg t now e i db ≡ ok (tt, db')
    → dispatch parse cfg t again e i db' ≡ ok (tt, db')
handled-again parse cfg t e i now again db db' h =
    elim ((dispatch-Settles parse cfg e i db t).at now db' h) [
      | inl done ↦ dispatch-recorded parse cfg e i db' t again done.0 done.1
      | inr idle ↦
          subst (λ d. dispatch parse cfg t again e i d ≡ ok (tt, d)) (sym idle.0) (idle.1 again)
    ]

-- If the Stripe webhook has answered a delivery with success, for an event of any type and from
-- any state, then any delivery that Stripe verifies as the same event, with its own payload,
-- signature and time, succeeds too and changes nothing: no row and no call at Stripe. The
-- verification may depend on the time.
pub stripe_webhook_idempotent :
    (parse : String → Option ℕ) (cfg : Settings) (construct : ℕ → String → String → Verified)
    (event : StripeEvent) (payload payload' : String) (header header' : Option String)
    (sig sig' : String) (now again : ℕ) (db db' : Db)
    → truthy header ≡ some sig
    → construct now payload sig ≡ verified event
    → truthy header' ≡ some sig'
    → construct again payload' sig' ≡ verified event
    → stripe_webhook parse cfg construct now payload header db ≡ ok (tt, db')
    → stripe_webhook parse cfg construct again payload' header' db' ≡ ok (tt, db')
unfolding stripe_webhook handle_verified
stripe_webhook_idempotent parse cfg construct event payload payload' header header' sig sig' now
      again db db' s v s' v' h =
    elim (Bool-cases cfg.is_cloud) [
      | inl cloud ↦
          simp (cloud, s', v')
            (handled-again parse cfg (event_type_of event.event_type) event.event_data
              event.event_id now again db db' (simp (cloud, s, v) at h))
      | inr not_cloud ↦ absurd (ground arith)
    ]
