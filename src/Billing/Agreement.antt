-- ===== src/Billing/Agreement.antt =====
-- `sync_subscription_from_stripe` of app/services/billing_service.py, called twice.
use floww_backend.Prelude.{
  ℕ, ◌≡◌, refl, sym, ap, subst, ◌∙◌, inl, inr, Bool, Bool-cases, true, false, Option, none, some,
  String, ◌==◌, any, if◌then◌else◌,
}
use floww_backend.Billing.Data.{Db, Subscription, StripeObject, Settings}
use floww_backend.Session.{pure, ok, ok-eq, >>=-eq-ok, ◌>>=◌}
use floww_backend.Billing.Constraints.{IsConsistent, flush-ok}
use floww_backend.Billing.Accounts.{OneSubscription}
use floww_backend.Billing.Lifecycle.{flush}
use floww_backend.Billing.Sync.{
  SyncMessage, no_stripe_subscription, organization_not_found, answer_stripe, sync_organization,
  subscription_or_new, sync_subscription_from_stripe, stripe_status_of, synced, finish, or_keep,
  keep_or_start, StripeStatus, is_active, is_canceled, is_incomplete_expired, copy_ids, sync_status,
  sync_rest, Branch, leave, go_on,
}
use floww_backend.Billing.TierSync.{sync_tier_lem, tier_of_idem}
use floww_backend.Billing.OrganizationRow.{known_row, row_one, flush-again, organizations_kept}

-- The row that the sync flushes.
abbrev pub flushed : Settings → StripeObject → Branch → Subscription
flushed cfg e (leave s m) = s
flushed cfg e (go_on s) = sync_rest cfg e s

or_keep_idem : (a b : Option String) → or_keep a (or_keep a b) ≡ or_keep a b
unfolding or_keep
or_keep_idem none b = refl
or_keep_idem (some t) b = refl

keep_or_start_idem :
    (a : Option ℕ) (d d' : ℕ) → keep_or_start (keep_or_start a d) d' ≡ keep_or_start a d
unfolding keep_or_start
keep_or_start_idem none d d' = refl
keep_or_start_idem (some t) d d' = refl

ruleset stable_rules = (sync_tier_lem, tier_of_idem, or_keep_idem, keep_or_start_idem)

flushed-stable :
    (cfg : Settings) (now later : ℕ) (e : StripeObject) (k : StripeStatus) (s : Subscription)
    → flushed cfg e (
        sync_status cfg later e k
          (copy_ids e (flushed cfg e (sync_status cfg now e k (copy_ids e s)))))
      ≡ flushed cfg e (sync_status cfg now e k (copy_ids e s))
unfolding sync_status copy_ids sync_rest
flushed-stable cfg now later e is_active s = simp stable_rules
flushed-stable cfg now later e _ s = simp stable_rules

-- The answer that goes with a flushed row.
abbrev reply : StripeObject → Branch → Subscription → Bool × SyncMessage
reply e (leave s m) r = (true, m)
reply e (go_on s) r = (true, synced e.stripe_status r.tier)

finish_lem :
    (cfg : Settings) (e : StripeObject) (b : Branch) (db : Db)
    → finish cfg e b db ≡ (flush (flushed cfg e b) >>= λ r. pure (reply e b r)) db
unfolding finish
finish_lem cfg e (leave s m) db = refl
finish_lem cfg e (go_on s) db = refl

reply-stable :
    (cfg : Settings) (now later : ℕ) (e : StripeObject) (k : StripeStatus) (s t r : Subscription)
    → reply e (sync_status cfg later e k s) r ≡ reply e (sync_status cfg now e k t) r
unfolding sync_status
reply-stable cfg now later e is_active s t r = refl
reply-stable cfg now later e _ s t r = refl

-- The keys by which the row is found again.
flushed-keys :
    (cfg : Settings) (now : ℕ) (e : StripeObject) (k : StripeStatus) (s : Subscription)
    → let r = flushed cfg e (sync_status cfg now e k (copy_ids e s)) in
      (r.id ≡ s.id) × (r.organization_id ≡ s.organization_id)
unfolding sync_status copy_ids sync_rest
flushed-keys cfg now e is_active s = (simp sync_tier_lem, simp sync_tier_lem)
flushed-keys cfg now e is_canceled s = (refl, refl)
flushed-keys cfg now e is_incomplete_expired s = (refl, refl)
flushed-keys cfg now e _ s = (simp sync_tier_lem, simp sync_tier_lem)

finish-again :
    (cfg : Settings) (now later : ℕ) (e : StripeObject) (k : StripeStatus) (s : Subscription)
    (d : Db)
    → let r = flushed cfg e (sync_status cfg now e k (copy_ids e s)) in
      flush r d ≡ ok (r, d)
      → finish cfg e (sync_status cfg later e k (copy_ids e r)) d
        ≡ ok (reply e (sync_status cfg now e k (copy_ids e s)) r, d)
finish-again cfg now later e k s d h =
    let r = flushed cfg e (sync_status cfg now e k (copy_ids e s)) in
    finish_lem cfg e (sync_status cfg later e k (copy_ids e r)) d
    ∙ rw (flushed-stable cfg now later e k s) (
        rw (h, ◌>>=◌)
          (ap (λ x. ok (x, d)) (reply-stable cfg now later e k (copy_ids e r) (copy_ids e s) r)))

-- From a state in which the organization has its row, the rest of the sync is stable.
answer-again :
    (cfg : Settings) (now later : ℕ) (stripe_sub : Option StripeObject) (s : Subscription) (org : ℕ)
    (db db' : Db) (a : Bool × SyncMessage)
    → OneSubscription org s db
    → answer_stripe cfg now stripe_sub s db ≡ ok (a, db')
    → (r : Subscription) × OneSubscription org r db'
      × (answer_stripe cfg later stripe_sub r db' ≡ ok (a, db'))
      × (db'.organizations ≡ db.organizations)
unfolding answer_stripe
answer-again cfg now later none s org db db' a one h =
    let q = ok-eq (false, no_stripe_subscription) a db db' h in
    subst
      (λ d.
        (r : Subscription) × OneSubscription org r d
        × (pure (false, no_stripe_subscription) d ≡ ok (a, d))
        × (d.organizations ≡ db.organizations))
      q.1 (s, one, ap (λ x. ok (x, db)) q.0, refl)
answer-again cfg now later (some e) s org db db' a one h =
    subst
      (λ d.
        (x : Subscription) × OneSubscription org x d
        × (finish cfg e (sync_status cfg later e k (copy_ids e x)) d ≡ ok (a, d))
        × (d.organizations ≡ db.organizations))
      answered.1
      (
        r,
        once.1,
        finish-again cfg now later e k s run.1 once.0
            ∙ ap (λ x. ok (x, run.1)) (ap (reply e b) (sym same) ∙ answered.0),
        once.2,
      )
  where
    k : StripeStatus
    k = stripe_status_of e

    b : Branch
    b = sync_status cfg now e k (copy_ids e s)

    r : Subscription
    r = flushed cfg e b

    keys : (r.id ≡ s.id) × (r.organization_id ≡ s.organization_id)
    keys = flushed-keys cfg now e k s

    run :
        (x : Subscription) × (d : Db) × (flush r db ≡ ok (x, d))
        × (pure (reply e b x) d ≡ ok (a, db'))
    run = >>=-eq-ok (flush r) (λ x. pure (reply e b x)) db (sym (finish_lem cfg e b db) ∙ h)

    same : run.0 ≡ r
    same = (flush-ok r run.0 db run.1 run.2).0

    answered : (reply e b run.0 ≡ a) × (run.1 ≡ db')
    answered = ok-eq (reply e b run.0) a run.1 db' run.3

    once :
        (flush r run.1 ≡ ok (r, run.1))
        × OneSubscription org r run.1
        × (run.1.organizations ≡ db.organizations)
    once =
        flush-again s r org db run.1 one keys.0 keys.1
          (subst (λ x. flush r db ≡ ok (x, run.1)) same run.2)

sync_organization-again :
    (cfg : Settings) (now later n n' org : ℕ) (stripe_sub : Option StripeObject) (db db' : Db)
    (a : Bool × SyncMessage)
    → IsConsistent db
    → sync_organization cfg now stripe_sub n org db ≡ ok (a, db')
    → (sync_organization cfg later stripe_sub n' org db' ≡ ok (a, db'))
      × (db'.organizations ≡ db.organizations)
unfolding sync_organization
sync_organization-again cfg now later n n' org stripe_sub db db' a valid h =
    let run = >>=-eq-ok (subscription_or_new n org) (answer_stripe cfg now stripe_sub) db h in
    let one = row_one n org db valid run.0 run.1 run.2 in
    let (r, kept, again, orgs) =
      answer-again cfg now later stripe_sub run.0 org run.1 db' a one run.3 in
    (
      rw (known_row n' org db' kept.0 r kept.1, ◌>>=◌) again,
      orgs ∙ organizations_kept n org run.0 db run.1 run.2,
    )

-- On a consistent database, once sync_subscription_from_stripe has returned, calling it again
-- with the same answer from Stripe, at any other time, gives the same result and changes
-- nothing; a grace period that is running is not prolonged.
pub sync_again :
    (cfg : Settings) (now later n n' org : ℕ) (stripe_sub : Option StripeObject) (db db' : Db)
    (a : Bool × SyncMessage)
    → IsConsistent db
    → sync_subscription_from_stripe cfg now stripe_sub n org db ≡ ok (a, db')
    → sync_subscription_from_stripe cfg later stripe_sub n' org db' ≡ ok (a, db')
unfolding sync_subscription_from_stripe
sync_again cfg now later n n' org stripe_sub db db' a valid h =
    elim (Bool-cases (any (λ o. o == org) db.organizations)) [
      | inl there ↦
          let q =
            sync_organization-again cfg now later n n' org stripe_sub db db' a valid
              (simp there at h) in
          simp (ap (any (λ o. o == org)) q.1 ∙ there) q.0
      | inr absent ↦
          let q = ok-eq (false, organization_not_found) a db db' (simp absent at h) in
          subst
            (λ d.
              (if any (λ o. o == org) d.organizations
                then sync_organization cfg later stripe_sub n' org d
                else ok ((false, organization_not_found), d))
              ≡ ok (a, d))
            q.1 (simp absent (ap (λ x. ok (x, db)) q.0))
    ]
