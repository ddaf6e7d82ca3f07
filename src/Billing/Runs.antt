-- ===== src/Billing/Runs.antt =====
-- The handlers of app/services/billing_service.py on a consistent database and a new event: they
-- return, and what they store.
use floww_backend.Prelude.{
  ◌≡◌, refl, ◌⊎◌, inl, inr, ap, ◌∙◌, Bool, true, false, Option, none, some, String, List, [], ◌∷◌,
  ◌++◌, find, any, arith, same_text_comm, if◌then◌else◌,
}
use floww_backend.Session.{Session, pure, ok, ◌>>=◌}
use floww_backend.Table.{clear, put}
use floww_backend.Table.Laws.{PicksUnique, fits, consistent-insert, consistent-put}
use floww_backend.Table.Updates.{fits-put, found-fits, fits_mono, put-put}
use floww_backend.Billing.Data.{
  Subscription, BillingEvent, StripeObject, Db, clash, same_id, clash_event,
}
use floww_backend.Billing.Lifecycle.{query_subscription, flush}
use floww_backend.Billing.Webhook.{
  of_event, event_row, insert_event, record_event, is_duplicate_event, for_some,
}
use floww_backend.Billing.Constraints.{
  IsConsistent, recorded, any-last, of_event-event_row, is_duplicate_event-recorded,
  query_subscription-find,
}

pub clash_comm : (a b : Subscription) → clash a b ≡ clash b a
unfolding clash
clash_comm a b = ground (
  arith,
  same_text_comm a.stripe_customer_id b.stripe_customer_id,
  same_text_comm a.stripe_subscription_id b.stripe_subscription_id,
)

clash_event_comm : (a b : BillingEvent) → clash_event a b ≡ clash_event b a
unfolding clash_event
clash_event_comm a b = same_text_comm a.stripe_event_id b.stripe_event_id

pub same_id-clash :
    (r x y : Subscription) → same_id r x ≡ true → same_id r y ≡ true → clash x y ≡ true
unfolding same_id clash
same_id-clash r x y h k = ground arith

pub same_id_self : (x : Subscription) → same_id x x ≡ true
unfolding same_id
same_id_self x = ground arith

-- The row with new values takes no unique value from another row.
abbrev pub Fits : Subscription → Db → Type 0
Fits r db = fits clash same_id r db.subscriptions ≡ true

-- A flush whose values fit returns.
pub flush-Fits :
    (r : Subscription) (db : Db)
    → IsConsistent db
    → Fits r db
    → flush r db ≡ ok (r, record db { subscriptions = put same_id r db.subscriptions })
unfolding flush
flush-Fits r db c f =
    rw (consistent-put clash same_id clash_comm same_id-clash r db.subscriptions c.subscriptions f)

clear-new_event :
    (i : String) (r : BillingEvent) (rows : List BillingEvent)
    → r.stripe_event_id ≡ some i
    → any (of_event i) rows ≡ false
    → clear clash_event r rows ≡ true
unfolding of_event clash_event
clear-new_event i r [] e h = refl
clear-new_event i r (x ∷ rows) e h =
    ground (arith, clear-new_event i r rows e, same_text_comm r.stripe_event_id x.stripe_event_id)

-- What recording an event leaves behind.
abbrev pub store : Subscription → String → String → StripeObject → Db → Db
store s t i e db = record db {
  subscriptions = put same_id s db.subscriptions;
  billing_events = db.billing_events ++ event_row s t i e ∷ [];
}

pub record_event-Fits :
    (s : Subscription) (t i : String) (e : StripeObject) (db : Db)
    → IsConsistent db
    → recorded i db ≡ false
    → Fits s db
    → record_event s t i e db ≡ ok (tt, store s t i e db)
unfolding record_event insert_event recorded
record_event-Fits s t i e db c new f =
    rw (flush-Fits s db c f, ◌>>=◌)
      (rw
        (consistent-insert clash_event clash_event_comm (event_row s t i e) db.billing_events
          c.events)
        (rw (clear-new_event i (event_row s t i e) db.billing_events refl new)))

-- The values keep the row's keys, or give up its Stripe subscription.
pub record Keeps (r s : Subscription) : Type 0 where
  pub same_row : r.id ≡ s.id
  pub same_organization : r.organization_id ≡ s.organization_id
  pub same_customer : r.stripe_customer_id ≡ s.stripe_customer_id
  pub same_subscription :
      (r.stripe_subscription_id ≡ s.stripe_subscription_id) ⊎ (r.stripe_subscription_id ≡ none)

Keeps-clash : (r s x : Subscription) → Keeps r s → clash s x ≡ false → clash r x ≡ false
unfolding clash
Keeps-clash r s x k h = elim k.same_subscription [
  | inl e ↦ rw (k.same_row, k.same_organization, k.same_customer, e) h
  | inr e ↦ rw (k.same_row, k.same_organization, k.same_customer, e) (ground arith)
]

Keeps-same_id : (r s x : Subscription) → Keeps r s → same_id s x ≡ true → same_id r x ≡ true
unfolding same_id
Keeps-same_id r s x k h = rw k.same_row h

-- Such values of a row that a query finds fit.
pub kept-Fits :
    (p : Subscription → Bool) (r s : Subscription) (db : Db)
    → IsConsistent db
    → find p db.subscriptions ≡ some s
    → Keeps r s
    → Fits r db
kept-Fits p r s db c e k =
    fits_mono clash same_id r s db.subscriptions (λ x. Keeps-same_id r s x k)
      (λ x. Keeps-clash r s x k)
      (found-fits clash same_id clash_comm same_id_self p s db.subscriptions c.subscriptions e)

pub same_id-row : (r s x : Subscription) → r.id ≡ s.id → same_id r x ≡ same_id s x
unfolding same_id
same_id-row r s x e = rw e

-- A flush and then the event, both of one row: the event's values are the ones that stay.
pub flush_then_record :
    (f : Subscription → Subscription) (r : Subscription) (t i : String) (e : StripeObject) (db : Db)
    → IsConsistent db
    → recorded i db ≡ false
    → Fits r db
    → Fits (f r) db
    → (f r).id ≡ r.id
    → (flush r >>= λ a. record_event (f a) t i e) db ≡ ok (tt, store (f r) t i e db)
flush_then_record f r t i e db c new fr ff same =
    rw (flush-Fits r db c fr, ◌>>=◌)
      (record_event-Fits (f r) t i e flushed kept (unfold recorded in new) fits_there
        ∙ ap
            (λ rows. ok (
              tt,
              record db {
                subscriptions = rows;
                billing_events = db.billing_events ++ event_row (f r) t i e ∷ [];
              },
            ))
            (put-put same_id (f r) r db.subscriptions (λ x. same_id-row (f r) r x same) same_there))
  where
    flushed : Db
    flushed = record db { subscriptions = put same_id r db.subscriptions }

    same_there : same_id (f r) r ≡ true
    same_there = same_id-row (f r) r r same ∙ same_id_self r

    kept : IsConsistent flushed
    kept = record {
      subscriptions =
          consistent-put clash same_id clash_comm same_id-clash r db.subscriptions c.subscriptions
            fr;
      events = c.events;
    }

    fits_there : Fits (f r) flushed
    fits_there =
        fits-put clash same_id (f r) r db.subscriptions (λ x h. same_id-row (f r) r x same ∙ h)
          same_there ff

-- The common start of the handlers, for a new event and a query that finds a row.
pub new_event_run :
    (p : Subscription → Bool) (h : Subscription → Session Db Unit) (i : String) (s : Subscription)
    (db : Db)
    → PicksUnique clash p
    → IsConsistent db
    → recorded i db ≡ false
    → find p db.subscriptions ≡ some s
    → (is_duplicate_event i >>= λ duplicate.
          if duplicate then pure tt else (query_subscription p >>= λ found. for_some found h))
        db
      ≡ h s db
new_event_run p h i s db u c new e =
    rw (is_duplicate_event-recorded i db c.events, ◌>>=◌)
      (rw new (rw (query_subscription-find p db u c, ◌>>=◌) (rw e)))

pub named_event_run :
    {A : Type 0} (o : Option A) (a : A) (p : A → Subscription → Bool)
    (h : A → Subscription → Session Db Unit) (i : String) (s : Subscription) (db : Db)
    → o ≡ some a
    → PicksUnique clash (p a)
    → IsConsistent db
    → recorded i db ≡ false
    → find (p a) db.subscriptions ≡ some s
    → (is_duplicate_event i >>= λ duplicate.
          if duplicate
          then pure tt
          else for_some o (λ b. query_subscription (p b) >>= λ found. for_some found (h b)))
        db
      ≡ h a s db
named_event_run o a p h i s db given u c new e =
    rw given (new_event_run (p a) (h a) i s db u c new e)

pub store-recorded :
    (s : Subscription) (t i : String) (e : StripeObject) (db : Db)
    → recorded i (store s t i e db) ≡ true
unfolding recorded
store-recorded s t i e db =
    any-last (of_event i) db.billing_events (event_row s t i e) (of_event-event_row s t i e)
