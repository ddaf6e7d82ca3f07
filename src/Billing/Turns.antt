-- ===== src/Billing/Turns.antt =====
-- How a handler of app/services/billing_service.py moves one subscription row: the shape of an outcome,
-- and the rows that the handlers store.
use floww_backend.Prelude.{
  ℕ, ◌≡◌, refl, inl, inr, Bool, true, false, Option, none, some, String, List, [], ◌∷◌, ◌++◌, any,
  find, arith, ◌==◌, Bool-cases, if◌then◌else◌, str_eq,
}
use floww_backend.Session.{Session, ok, ◌>>=◌}
use floww_backend.Table.{put}
use floww_backend.Table.Laws.{find-put_self, find-put_ne}
use floww_backend.Billing.Data.{Subscription, StripeObject, Db, Settings, free, active, same_id}
use floww_backend.Billing.Lifecycle.{downgrade_to_free}
use floww_backend.Billing.Webhook.{
  by_id, record_event, updated_status, status_is, copy_period, sync_tier, call_default_payment,
}
use floww_backend.Billing.Constraints.{IsConsistent, recorded}
use floww_backend.Billing.Runs.{Fits, Keeps, store, store-recorded, flush_then_record}

-- From `db` to `db'` the row `s` took the values of `r`, every other row is as it was, and the event
-- is recorded.
pub record Updates (i : String) (s r : Subscription) (db db' : Db) : Type 0 where
  pub rows :
      (n : ℕ)
      → find (by_id n) db'.subscriptions
        ≡ (if n == s.id then some r else find (by_id n) db.subscriptions)
  pub remembered : recorded i db' ≡ true

found-by_id :
    (p : Subscription → Bool) (s : Subscription) (rows : List Subscription)
    → find p rows ≡ some s
    → any (by_id s.id) rows ≡ true
unfolding by_id
found-by_id p s [] e = ground arith
found-by_id p s (x ∷ rows) e = ground (arith, found-by_id p s rows)

store_rows :
    (p : Subscription → Bool) (r s : Subscription) (rows : List Subscription) (n : ℕ)
    → find p rows ≡ some s
    → r.id ≡ s.id
    → find (by_id n) (put same_id r rows) ≡ (if n == s.id then some r else find (by_id n) rows)
unfolding by_id same_id
store_rows p r s rows n f same = elim (Bool-cases (n == s.id)) [
  | inl e ↦ rw e (
      find-put_self same_id (by_id n) r rows (ground arith) (λ x h. ground arith)
        (ground (arith, found-by_id p s rows f)))
  | inr e ↦ rw e (find-put_ne same_id (by_id n) r rows (ground arith) (λ x h. ground arith))
]

pub store-Updates :
    (p : Subscription → Bool) (r s : Subscription) (t i : String) (e : StripeObject) (db : Db)
    → find p db.subscriptions ≡ some s
    → r.id ≡ s.id
    → recorded i (store r t i e db) ≡ true
    → Updates i s r db (store r t i e db)
store-Updates p r s t i e db f same kept = record {
  rows = λ n. store_rows p r s db.subscriptions n f same;
  remembered = kept;
}

-- The handler returns, and afterwards the row has the values of `r`.
abbrev pub Turns : Session Db Unit → String → Subscription → Subscription → Db → Type 0
Turns handler i s r db = (db' : Db) × (handler db ≡ ok (tt, db')) × Updates i s r db db'

pub stores-Turns :
    (p : Subscription → Bool) (handler : Session Db Unit) (r s : Subscription) (t i : String)
    (e : StripeObject) (db : Db)
    → find p db.subscriptions ≡ some s
    → r.id ≡ s.id
    → handler db ≡ ok (tt, store r t i e db)
    → Turns handler i s r db
stores-Turns p handler r s t i e db f same run =
    (store r t i e db, run, store-Updates p r s t i e db f same (store-recorded r t i e db))

-- What `downgrade_to_free` leaves of a subscription.
abbrev pub freed : Subscription → Subscription
freed s = record s {
  tier = free;
  status = active;
  stripe_subscription_id = none;
  current_period_end = none;
  trial_ends_at = none;
  grace_period_ends_at = none;
  cancel_at_period_end = false;
}

pub freed-Keeps : (s : Subscription) → Keeps (freed s) s
freed-Keeps s = record {
  same_row = refl;
  same_organization = refl;
  same_customer = refl;
  same_subscription = inr refl;
}

pub kept-Keeps :
    (r s : Subscription)
    → r.id ≡ s.id
    → r.organization_id ≡ s.organization_id
    → r.stripe_customer_id ≡ s.stripe_customer_id
    → r.stripe_subscription_id ≡ s.stripe_subscription_id
    → Keeps r s
kept-Keeps r s a b c d = record {
  same_row = a;
  same_organization = b;
  same_customer = c;
  same_subscription = inl d;
}

pub call_default_payment_lem :
    (o : Option String) (k : String) (db : Db)
    → (calls : List (String × String)) × (call_default_payment o k db
        ≡ ok (tt, record db { default_payment_calls = calls }))
unfolding call_default_payment
call_default_payment_lem none k db = (db.default_payment_calls, refl)
call_default_payment_lem (some c) k db = (db.default_payment_calls ++ (c, k) ∷ [], refl)

-- The status test on the event's text.
pub status_is_lem :
    (e : StripeObject) (t u : String) → e.stripe_status ≡ some t → status_is e u ≡ str_eq t u
unfolding status_is
status_is_lem e t u h = rw h

updated_status-canceled :
    (e : StripeObject) (s : Subscription)
    → e.stripe_status ≡ some "canceled"
    → updated_status e s ≡ downgrade_to_free s
unfolding updated_status
updated_status-canceled e s h = rw (
  status_is_lem e "canceled" "active" h,
  status_is_lem e "canceled" "past_due" h,
  status_is_lem e "canceled" "canceled" h,
)

pub canceled_run :
    (cfg : Settings) (e : StripeObject) (i : String) (s : Subscription) (db : Db)
    → e.stripe_status ≡ some "canceled"
    → IsConsistent db
    → recorded i db ≡ false
    → Fits (freed s) db
    → Fits (copy_period e (freed s)) db
    → (updated_status e s >>= λ changed.
          record_event
            (if status_is e "canceled"
              then copy_period e changed
              else sync_tier cfg e.price_ids (copy_period e changed))
            "customer.subscription.updated"
            i
            e)
        db
      ≡ ok (tt, store (copy_period e (freed s)) "customer.subscription.updated" i e db)
unfolding downgrade_to_free copy_period
canceled_run cfg e i s db gone valid new fits fits_copied =
    rw (updated_status-canceled e s gone, status_is_lem e "canceled" "canceled" gone)
      (flush_then_record (copy_period e) (freed s) "customer.subscription.updated" i e db valid new
        fits fits_copied refl)
