-- ===== src/Billing/OrganizationRow.antt =====
-- The row of an organization in `sync_subscription_from_stripe` of
-- app/services/billing_service.py.
use floww_backend.Prelude.{
  ℕ, ◌≡◌, refl, sym, subst, Option-cases, ◌∙◌, inl, inr, true, none, some, [], ◌∷◌, ◌++◌, find,
  arith, if◌then◌else◌,
}
use floww_backend.Billing.Data.{Db, Subscription, clash, same_id}
use floww_backend.Session.{Result, ok, err, ok-eq, integrity_error, ◌>>=◌}
use floww_backend.Table.{consistent, put}
use floww_backend.Table.Laws.{find-append}
use floww_backend.Table.Updates.{put-put, find-put_found}
use floww_backend.Billing.Constraints.{IsConsistent, query_subscription-find, flush-ok}
use floww_backend.Billing.Runs.{same_id-clash, clash_comm, same_id_self, same_id-row}
use floww_backend.Billing.Accounts.{
  OneSubscription, of_organization-PicksUnique, of_organization_sound, of_organization-new,
}
use floww_backend.Billing.Lifecycle.{query_subscription, flush, of_organization, new_subscription}
use floww_backend.Billing.Sync.{subscription_or_new}

module _ (n org : ℕ) (db : Db) (valid : IsConsistent db) where
  pub known_row :
      (s : Subscription)
      → find (of_organization org) db.subscriptions ≡ some s
      → subscription_or_new n org db ≡ ok (s, db)
  unfolding subscription_or_new
  known_row s h =
      rw
        (
          query_subscription-find (of_organization org) db (of_organization-PicksUnique org) valid,
          ◌>>=◌,
        )
        (rw h)

  insert_row : Result (Subscription × Db)
  insert_row =
      let row = new_subscription n org in
      let rows = db.subscriptions ++ row ∷ [] in
      if consistent clash rows
      then ok (row, record db { subscriptions = rows })
      else err integrity_error

  missing_row :
      find (of_organization org) db.subscriptions ≡ none → subscription_or_new n org db ≡ insert_row
  unfolding subscription_or_new insert_row
  missing_row h =
      rw
        (
          query_subscription-find (of_organization org) db (of_organization-PicksUnique org) valid,
          ◌>>=◌,
        )
        (rw h)

  insert_row-one :
      (s : Subscription) (db' : Db)
      → find (of_organization org) db.subscriptions ≡ none
      → insert_row ≡ ok (s, db')
      → OneSubscription org s db'
  unfolding insert_row
  insert_row-one s db' h e =
      let r = inserted_row e in
      subst (λ x. OneSubscription org x db') r.0
        (subst (OneSubscription org (new_subscription n org)) r.1 (
          record { subscriptions = r.2; events = valid.events },
          find-append (of_organization org) db.subscriptions (new_subscription n org ∷ [])
              ∙ rw h (rw (of_organization-new n org)),
          refl,
        ))
    where
      inserted_row :
          insert_row ≡ ok (s, db')
          → (new_subscription n org ≡ s)
            × (record db { subscriptions = db.subscriptions ++ new_subscription n org ∷ [] } ≡ db')
            × (consistent clash (db.subscriptions ++ new_subscription n org ∷ []) ≡ true)
      inserted_row k = ground arith

  -- Whether it was there or is made now, the row is the organization's one.
  pub row_one :
      (s : Subscription) (db' : Db)
      → subscription_or_new n org db ≡ ok (s, db')
      → OneSubscription org s db'
  row_one s db' h = elim (Option-cases (find (of_organization org) db.subscriptions)) [
    | inl missing ↦ insert_row-one s db' missing (sym (missing_row missing) ∙ h)
    | inr (t, e) ↦
        let q = ok-eq t s db db' (sym (known_row t e) ∙ h) in
        subst (λ x. OneSubscription org x db') q.0
          (subst (OneSubscription org t) q.1
            (valid, e, of_organization_sound org t db.subscriptions e))
  ]

of_organization_self :
    (org : ℕ) (r : Subscription) → r.organization_id ≡ org → of_organization org r ≡ true
unfolding of_organization
of_organization_self org r h = ground arith

flush_flushed :
    (r : Subscription) (db : Db)
    → consistent clash (put same_id r db.subscriptions) ≡ true
    → flush r (record db { subscriptions = put same_id r db.subscriptions })
      ≡ ok (r, record db { subscriptions = put same_id r db.subscriptions })
unfolding flush
flush_flushed r db fine =
    rw (put-put same_id r r db.subscriptions (λ x. refl) (same_id_self r)) (rw fine)

-- A flush leaves its row as the organization's one, and once more it changes nothing.
pub flush-again :
    (s r : Subscription) (org : ℕ) (db db' : Db)
    → OneSubscription org s db
    → r.id ≡ s.id
    → r.organization_id ≡ s.organization_id
    → flush r db ≡ ok (r, db')
    → (flush r db' ≡ ok (r, db'))
      × OneSubscription org r db'
      × (db'.organizations ≡ db.organizations)
flush-again s r org db db' one same_row same_org h =
    subst
      (λ d.
        (flush r d ≡ ok (r, d)) × OneSubscription org r d × (d.organizations ≡ db.organizations))
      (sym q.1) (again, (kept, stored, same_org ∙ one.2), refl)
  where
    flushed_db : Db
    flushed_db = record db { subscriptions = put same_id r db.subscriptions }

    q : (r ≡ r) × (db' ≡ flushed_db) × (consistent clash db'.subscriptions ≡ true)
    q = flush-ok r r db db' h

    fine : consistent clash (put same_id r db.subscriptions) ≡ true
    fine = subst (λ (d : Db). consistent clash d.subscriptions ≡ true) q.1 q.2

    kept : IsConsistent flushed_db
    kept = record { subscriptions = fine; events = one.0.events }

    stored : find (of_organization org) (put same_id r db.subscriptions) ≡ some r
    stored =
        find-put_found clash same_id (of_organization org) r s db.subscriptions (same_id-clash r)
          clash_comm same_id_self one.0.subscriptions one.1
          (same_id-row r s s same_row ∙ same_id_self s)
          (of_organization_self org r (same_org ∙ one.2))

    again : flush r flushed_db ≡ ok (r, flushed_db)
    again = flush_flushed r db fine

pub organizations_kept :
    (n org : ℕ) (s : Subscription) (db db' : Db)
    → subscription_or_new n org db ≡ ok (s, db')
    → db'.organizations ≡ db.organizations
unfolding subscription_or_new query_subscription
organizations_kept n org s db db' h = ground arith
