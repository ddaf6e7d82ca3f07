-- ===== src/Billing/Settling.antt =====
-- Reasoning about repeated deliveries to the handlers of app/services/billing_service.py: what a
-- handler has done once it returns.
use floww_backend.Prelude.{
  ℕ, ◌≡◌, refl, sym, subst, ◌⊎◌, inl, inr, Bool, true, false, Option, none, some, String, arith,
  if◌then◌else◌,
}
use floww_backend.Session.{Session, Result, ok, err, pure, ◌>>=◌}
use floww_backend.Billing.Data.{Subscription, StripeObject, Db}
use floww_backend.Billing.Lifecycle.{query_subscription}
use floww_backend.Billing.Webhook.{is_duplicate_event, record_event, for_some}
use floww_backend.Billing.Constraints.{
  IsConsistent, recorded, is_duplicate_event-recorded, record_event-ok,
}

-- A handler, by the time of the delivery, from one state: once it has returned, either the event is
-- recorded and the constraints hold, or it did nothing and would do nothing at any other time.
pub record Settles (i : String) (db : Db) (h : ℕ → Session Db Unit) : Type 0 where
  pub at :
      (now : ℕ) (db' : Db)
      → h now db ≡ ok (tt, db')
      → ((recorded i db' ≡ true) × IsConsistent db')
        ⊎ ((db' ≡ db) × ((later : ℕ) → h later db ≡ ok (tt, db)))

-- The query changes nothing.
pub record ReadOnly {A : Type 0} (m : Session Db A) : Type 0 where
  pub keeps : (db db' : Db) (a : A) → m db ≡ ok (a, db') → db' ≡ db

module _ (i : String) where
  pub Settles-pure : (db : Db) → Settles i db (λ now. pure tt)
  Settles-pure db = record { at = λ now db' h. inr (ground arith, λ later. refl) }

  pub Settles-if :
      (db : Db) (b : Bool) (f g : ℕ → Session Db Unit)
      → Settles i db f
      → Settles i db g
      → Settles i db (λ now. if b then f now else g now)
  Settles-if db true f g hf hg = hf
  Settles-if db false f g hf hg = hg

  pub Settles-for_some :
      {A : Type 0} (db : Db) (o : Option A) (f : ℕ → A → Session Db Unit)
      → ((a : A) → Settles i db (λ now. f now a))
      → Settles i db (λ now. for_some o (f now))
  Settles-for_some db none f h = Settles-pure db
  Settles-for_some db (some a) f h = h a

  pub Settles-bind :
      {A : Type 0} (db : Db) (m : Session Db A) (f : ℕ → A → Session Db Unit)
      → ReadOnly m
      → ((a : A) → Settles i db (λ now. f now a))
      → Settles i db (λ now. m >>= f now)
  Settles-bind {A} db m f quiet h = record { at = go (m db) refl }
    where
      next : ℕ → Result (A × Db) → Result (Unit {0} × Db)
      next now r = elim r [ ok (a, d) ↦ f now a d | err e ↦ err e ]

      go :
          (r : Result (A × Db))
          → m db ≡ r
          → (now : ℕ) (db' : Db) → next now r ≡ ok (tt, db')
          → ((recorded i db' ≡ true) × IsConsistent db')
            ⊎ ((db' ≡ db) × ((later : ℕ) → next later r ≡ ok (tt, db)))
      go (ok (a, d)) e now db' k =
          let same = quiet.keeps db d a e in
          subst
            (λ x.
              f now a x ≡ ok (tt, db')
              → ((recorded i db' ≡ true) × IsConsistent db')
                ⊎ ((db' ≡ db) × ((later : ℕ) → f later a x ≡ ok (tt, db))))
            (sym same) ((h a).at now db') k
      go (err x) e now db' k = absurd (ground arith)

  -- A handler that returns only after it has recorded the event.
  pub Settles-record :
      (db : Db) (h : ℕ → Session Db Unit)
      → ((now : ℕ) (db' : Db)
          → h now db ≡ ok (tt, db')
          → (recorded i db' ≡ true) × IsConsistent db')
      → Settles i db h
  Settles-record db h r = record { at = λ now db' e. inl (r now db' e) }

is_duplicate_event-ReadOnly : (i : String) → ReadOnly (is_duplicate_event i)
unfolding is_duplicate_event
is_duplicate_event-ReadOnly i = record { keeps = λ db db' a h. ground arith }

query_subscription-ReadOnly : (p : Subscription → Bool) → ReadOnly (query_subscription p)
unfolding query_subscription
query_subscription-ReadOnly p = record { keeps = λ db db' a h. ground arith }

-- The start of every handler: a recorded event is passed over.
pub unless_duplicate-Settles :
    (i : String) (db : Db) (h : ℕ → Session Db Unit)
    → Settles i db h
    → Settles i db
        (λ now. is_duplicate_event i >>= λ duplicate. if duplicate then pure tt else h now)
unless_duplicate-Settles i db h s =
    Settles-bind i db _ _ (is_duplicate_event-ReadOnly i)
      λ duplicate. Settles-if i db _ _ _ (Settles-pure i db) s

-- The handlers go on with the row that a query finds.
pub with_subscription-Settles :
    (i : String) (db : Db) (p : Subscription → Bool) (h : ℕ → Subscription → Session Db Unit)
    → ((now : ℕ) (s : Subscription) (db' : Db)
        → h now s db ≡ ok (tt, db')
        → (recorded i db' ≡ true) × IsConsistent db')
    → Settles i db (λ now. query_subscription p >>= λ found. for_some found (h now))
with_subscription-Settles i db p h r =
    Settles-bind i db _ _ (query_subscription-ReadOnly p)
      λ found. Settles-for_some i db found h λ s. Settles-record i db _ λ now db'. r now s db'

-- What comes before the recording does not matter.
pub bind-record :
    {A : Type 0} (i t : String) (e : StripeObject) (m : Session Db A) (f : A → Subscription)
    (db db' : Db)
    → (m >>= λ a. record_event (f a) t i e) db ≡ ok (tt, db')
    → (recorded i db' ≡ true) × IsConsistent db'
bind-record {A} i t e m f db db' h = go (m db) h
  where
    go :
        (r : Result (A × Db))
        → (elim r [ ok (a, d) ↦ record_event (f a) t i e d | err x ↦ err x ]) ≡ ok (tt, db')
        → (recorded i db' ≡ true) × IsConsistent db'
    go (ok (a, d)) k = record_event-ok (f a) t i e d db' k
    go (err x) k = absurd (ground arith)

-- An event that is recorded is passed over.
pub unless_duplicate-recorded :
    (i : String) (db : Db) (h : Session Db Unit)
    → recorded i db ≡ true
    → IsConsistent db
    → (is_duplicate_event i >>= λ duplicate. if duplicate then pure tt else h) db ≡ ok (tt, db)
unless_duplicate-recorded i db h r c = rw (is_duplicate_event-recorded i db c.events, ◌>>=◌) (rw r)
