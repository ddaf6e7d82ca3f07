-- ===== src/Billing/Constraints.antt =====
-- The unique columns of the billing tables: which queries they make unambiguous, and what the steps
-- of app/services/billing_service.py do to them.
use floww_backend.Prelude.{
  ℕ, ◌≡◌, refl, Bool, true, Option, none, some, String, any, find, arith, is_some-find, same_text,
  same_text_shared, same_text_self, Bool, List, [], ◌∷◌, ◌++◌,
}
use floww_backend.Session.{Result, ok, err}
use floww_backend.Table.{consistent, put}
use floww_backend.Table.Laws.{PicksUnique, scalar_one_or_none-select}
use floww_backend.Billing.Data.{
  Subscription, BillingEvent, StripeObject, Db, clash, same_id, clash_event, column_is,
}
use floww_backend.Billing.Lifecycle.{query_subscription, flush}
use floww_backend.Billing.Webhook.{
  of_event, event_row, insert_event, is_duplicate_event, record_event, by_id, by_stripe_id,
}

-- The database holds no two rows that its constraints refuse.
pub record IsConsistent (db : Db) : Type 0 where
  pub subscriptions : consistent clash db.subscriptions ≡ true
  pub events : consistent clash_event db.billing_events ≡ true

-- The event is among the recorded ones.
unfoldable pub recorded : String → Db → Bool
recorded i db = any (of_event i) db.billing_events

of_event-PicksUnique : (i : String) → PicksUnique clash_event (of_event i)
unfolding of_event clash_event
of_event-PicksUnique i x y = same_text_shared i x.stripe_event_id y.stripe_event_id

pub by_id-PicksUnique : (n : ℕ) → PicksUnique clash (by_id n)
unfolding by_id clash
by_id-PicksUnique n x y p q = ground arith

column_is-same_text : (i : String) (c : Option String) → column_is c (some i) ≡ same_text c (some i)
unfolding column_is
column_is-same_text i none = refl
column_is-same_text i (some s) = refl

pub by_stripe_id-PicksUnique : (i : String) → PicksUnique clash (by_stripe_id (some i))
unfolding by_stripe_id clash
by_stripe_id-PicksUnique i x y p q = ground (
  arith,
  column_is-same_text i x.stripe_subscription_id,
  column_is-same_text i y.stripe_subscription_id,
  same_text_shared i x.stripe_subscription_id y.stripe_subscription_id,
)

-- Under the constraints the queries raise nothing and return the row that is there.
pub query_subscription-find :
    (p : Subscription → Bool) (db : Db)
    → PicksUnique clash p
    → IsConsistent db
    → query_subscription p db ≡ ok (find p db.subscriptions, db)
unfolding query_subscription
query_subscription-find p db u c =
    rw (scalar_one_or_none-select clash p u db.subscriptions c.subscriptions)

pub is_duplicate_event-recorded :
    (i : String) (db : Db)
    → consistent clash_event db.billing_events ≡ true
    → is_duplicate_event i db ≡ ok (recorded i db, db)
unfolding is_duplicate_event recorded
is_duplicate_event-recorded i db c =
    rw
      (scalar_one_or_none-select clash_event (of_event i) (of_event-PicksUnique i) db.billing_events
        c)
      (ground (arith, is_some-find (of_event i) db.billing_events))

-- What `flush` returned it has also stored, and it touches the subscriptions alone.
pub flush-ok :
    (s r : Subscription) (db db' : Db)
    → flush s db ≡ ok (r, db')
    → (r ≡ s)
      × (db' ≡ record db { subscriptions = put same_id s db.subscriptions })
      × (consistent clash db'.subscriptions ≡ true)
unfolding flush
flush-ok s r db db' h = ground arith

insert_event-ok :
    (r : BillingEvent) (db db' : Db)
    → insert_event r db ≡ ok (tt, db')
    → (db' ≡ record db { billing_events = db.billing_events ++ r ∷ [] })
      × (consistent clash_event db'.billing_events ≡ true)
unfolding insert_event
insert_event-ok r db db' h = ground arith

pub any-last :
    {A : Type 0} (p : A → Bool) (xs : List A) (a : A) → p a ≡ true → any p (xs ++ a ∷ []) ≡ true
any-last p [] a h = ground arith
any-last p (x ∷ xs) a h = ground (arith, any-last p xs a h)

pub of_event-event_row :
    (s : Subscription) (t i : String) (e : StripeObject) → of_event i (event_row s t i e) ≡ true
unfolding of_event
of_event-event_row s t i e = same_text_self i

-- A recorded event is in the table afterwards, and the constraints hold.
pub record_event-ok :
    (s : Subscription) (t i : String) (e : StripeObject) (db db' : Db)
    → record_event s t i e db ≡ ok (tt, db')
    → (recorded i db' ≡ true) × IsConsistent db'
unfolding record_event recorded
record_event-ok s t i e db db' h = go (flush s db) refl h
  where
    go :
        (r : Result (Subscription × Db))
        → flush s db ≡ r
        → (elim r [ ok (a, d) ↦ insert_event (event_row s t i e) d | err x ↦ err x ]) ≡ ok (tt, db')
        → (recorded i db' ≡ true) × IsConsistent db'
    go (ok (a, d)) f k = ground (
      arith,
      flush-ok s a db d f,
      insert_event-ok (event_row s t i e) d db' k,
      any-last (of_event i) d.billing_events (event_row s t i e) (of_event-event_row s t i e),
    )
    go (err x) f k = cc
