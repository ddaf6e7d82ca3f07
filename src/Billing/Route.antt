-- ===== src/Billing/Route.antt =====
-- The route of app/routes/billing.py: verification, the table of handlers and the dispatch.
use floww_backend.Prelude.{ℕ, not, Option, none, some, String, truthy, str_eq, if◌then◌else◌}
use floww_backend.Session.{Session, pure, raise, http_exception}
use floww_backend.Billing.Data.{StripeObject, Db, Settings}
use floww_backend.Billing.Webhook.{
  handle_checkout_completed, handle_subscription_created, handle_subscription_updated,
  handle_subscription_deleted, handle_payment_failed_event, handle_payment_succeeded_event,
}

-- `handlers.get(event_type)`: the event types that have a handler, and any other.
pub data EventType : Type 0 where
  checkout_completed subscription_created subscription_updated subscription_deleted payment_failed
        payment_succeeded other_event :
      EventType

unfoldable pub event_type_of : String → EventType
event_type_of t =
    if str_eq t "checkout.session.completed"
    then checkout_completed
    else if str_eq t "customer.subscription.created"
    then subscription_created
    else if str_eq t "customer.subscription.updated"
    then subscription_updated
    else if str_eq t "customer.subscription.deleted"
    then subscription_deleted
    else if str_eq t "invoice.payment_failed"
    then payment_failed
    else if str_eq t "invoice.payment_succeeded"
    then payment_succeeded
    else other_event

module _ (parse_uuid : String → Option ℕ) (cfg : Settings) where
  unfoldable pub dispatch : EventType → ℕ → StripeObject → String → Session Db Unit
  dispatch checkout_completed now e i = handle_checkout_completed parse_uuid e i
  dispatch subscription_created now e i = handle_subscription_created parse_uuid cfg now e i
  dispatch subscription_updated now e i = handle_subscription_updated cfg e i
  dispatch subscription_deleted now e i = handle_subscription_deleted e i
  dispatch payment_failed now e i = handle_payment_failed_event cfg now e i
  dispatch payment_succeeded now e i = handle_payment_succeeded_event e i
  dispatch other_event now e i = pure tt

-- An event as `event["type"]`, `event["data"]["object"]` and `event["id"]`.
pub record StripeEvent : Type 0 where
  pub event_type : String
  pub event_data : StripeObject
  pub event_id : String

-- What Stripe's verification of a signed payload gives: the event, a `ValueError`, or any other
-- exception.
pub data Verified : Type 0 where
  verified : StripeEvent → Verified
  invalid_payload invalid_signature : Verified

-- The route. `construct_webhook_event` is the verification, which also looks at the time: Stripe's
-- library refuses a signature that is too old.
module _ (parse_uuid : String → Option ℕ) (cfg : Settings)
    (construct_webhook_event : ℕ → String → String → Verified) where
  unfoldable pub handle_verified : ℕ → Verified → Session Db Unit
  unfolding dispatch
  handle_verified now (verified event) =
      dispatch parse_uuid cfg (event_type_of event.event_type) now event.event_data event.event_id
  handle_verified now invalid_payload = raise (http_exception 400 "Invalid payload")
  handle_verified now invalid_signature = raise (http_exception 400 "Invalid signature")

  unfoldable pub stripe_webhook : ℕ → String → Option String → Session Db Unit
  unfolding handle_verified
  stripe_webhook now payload sig_header =
      if not cfg.is_cloud
      then raise (http_exception 404 "Billing is not enabled in this environment")
      else elim (truthy sig_header) [
        | none ↦ raise (http_exception 400 "Missing stripe-signature header")
        | some sig ↦ handle_verified now (construct_webhook_event now payload sig)
      ]
