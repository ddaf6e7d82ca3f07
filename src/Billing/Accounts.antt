-- ===== src/Billing/Accounts.antt =====
-- `get_or_create_subscription` of app/services/billing_service.py, also where two transactions race.
use floww_backend.Prelude.{
  ℕ, ◌≡◌, ◌⊎◌, refl, sym, ◌∙◌, inl, inr, Bool, true, false, none, some, List, [], ◌∷◌, ◌++◌, any,
  find, select, arith, is_some-find, Option-cases, Bool-cases, find_sound,
}
use floww_backend.Session.{ok, err, no_result_found, ◌>>=◌, scalar_one_or_none, scalar_one}
use floww_backend.Table.{clear}
use floww_backend.Table.Laws.{
  PicksUnique, scalar_one_or_none-select, consistent-insert, find-append,
}
use floww_backend.Billing.Data.{Subscription, Db, clash}
use floww_backend.Billing.Lifecycle.{
  organization_exists, insert_or_refetch, get_or_create_subscription, new_subscription,
  of_organization,
}
use floww_backend.Billing.Webhook.{by_id}
use floww_backend.Billing.Constraints.{IsConsistent, query_subscription-find}
use floww_backend.Billing.Runs.{clash_comm}

pub of_organization-PicksUnique : (org : ℕ) → PicksUnique clash (of_organization org)
unfolding of_organization clash
of_organization-PicksUnique org x y h k = ground arith

-- A fresh row of an organization with none clashes with nothing.
clear-new_subscription :
    (n org : ℕ) (rows : List Subscription)
    → any (by_id n) rows ≡ false
    → any (of_organization org) rows ≡ false
    → clear clash (new_subscription n org) rows ≡ true
unfolding by_id of_organization clash
clear-new_subscription n org [] h k = refl
clear-new_subscription n org (x ∷ rows) h k = ground (arith, clear-new_subscription n org rows)

scalar_one-found :
    (A : Type 0) (rows : List A) (a : A)
    → scalar_one_or_none rows ≡ ok (some a)
    → scalar_one rows ≡ ok a
unfolding scalar_one_or_none scalar_one
scalar_one-found A [] a h = absurd (ground arith)
scalar_one-found A (x ∷ []) a h = ground arith
scalar_one-found A (x ∷ y ∷ rows) a h = absurd (ground arith)

find-any-none :
    (p : Subscription → Bool) (rows : List Subscription) → find p rows ≡ none → any p rows ≡ false
find-any-none p rows h = sym (is_some-find p rows) ∙ rw h refl

pub of_organization-new : (n org : ℕ) → of_organization org (new_subscription n org) ≡ true
unfolding of_organization
of_organization-new n org = ground arith

clear-taken :
    (n org : ℕ) (s : Subscription) (rows : List Subscription)
    → find (of_organization org) rows ≡ some s
    → clear clash (new_subscription n org) rows ≡ false
unfolding of_organization clash
clear-taken n org s [] h = absurd (ground arith)
clear-taken n org s (x ∷ rows) h = ground (arith, clear-taken n org s rows)

-- The organization's one row.
abbrev pub OneSubscription : ℕ → Subscription → Db → Type 0
OneSubscription org s db =
    IsConsistent db
    × (find (of_organization org) db.subscriptions ≡ some s)
    × (s.organization_id ≡ org)

pub of_organization_sound :
    (org : ℕ) (s : Subscription) (rows : List Subscription)
    → find (of_organization org) rows ≡ some s
    → s.organization_id ≡ org
unfolding of_organization
of_organization_sound org s rows h = ground (arith, find_sound (of_organization org) rows s h)

module _ (others : Db → Db) (n org : ℕ) (db : Db) (valid : IsConsistent db) where
  -- An organization that has a subscription gets that one, and nothing changes.
  pub get_or_create-existing :
      (s : Subscription)
      → find (of_organization org) db.subscriptions ≡ some s
      → get_or_create_subscription others n org db ≡ ok (s, db)
  unfolding get_or_create_subscription
  get_or_create-existing s h =
      rw
        (
          query_subscription-find (of_organization org) db (of_organization-PicksUnique org) valid,
          ◌>>=◌,
        )
        (rw h)

  missing_run :
      find (of_organization org) db.subscriptions ≡ none
      → get_or_create_subscription others n org db ≡ insert_or_refetch others n org db
  unfolding get_or_create_subscription
  missing_run h =
      rw
        (
          query_subscription-find (of_organization org) db (of_organization-PicksUnique org) valid,
          ◌>>=◌,
        )
        (rw h)

  module _ (missing : find (of_organization org) db.subscriptions ≡ none) where
    get_or_create-raced :
        (s : Subscription)
        → IsConsistent (others db)
        → find (of_organization org) (others db).subscriptions ≡ some s
        → get_or_create_subscription others n org db ≡ ok (s, others db)
    unfolding insert_or_refetch
    get_or_create-raced s c h =
        missing_run missing
        ∙ rw (clear-taken n org s (others db).subscriptions h) (
            rw (
              scalar_one-found Subscription (select (of_organization org) (others db).subscriptions)
                s
                (scalar_one_or_none-select clash (of_organization org)
                    (of_organization-PicksUnique org) (others db).subscriptions c.subscriptions
                  ∙ rw h)))

    select_absent :
        (rows : List Subscription)
        → find (of_organization org) rows ≡ none
        → select (of_organization org) rows ≡ []
    select_absent [] h = refl
    select_absent (x ∷ rows) h = ground (arith, select_absent rows)

    -- The organization is gone with its row.
    get_or_create-gone :
        organization_exists org (others db) ≡ false
        → any (by_id n) (others db).subscriptions ≡ false
        → find (of_organization org) (others db).subscriptions ≡ none
        → get_or_create_subscription others n org db ≡ err no_result_found
    unfolding insert_or_refetch scalar_one
    get_or_create-gone gone fresh h =
        missing_run missing
        ∙ rw
            (
              clear-new_subscription n org (others db).subscriptions fresh
                  (find-any-none (of_organization org) (others db).subscriptions h),
              gone,
              select_absent (others db).subscriptions h,
            )
            refl

    abbrev inserted : Db
    inserted = record (others db) {
      subscriptions = (others db).subscriptions ++ new_subscription n org ∷ [];
    }

    get_or_create-inserted :
        organization_exists org (others db) ≡ true
        → any (by_id n) (others db).subscriptions ≡ false
        → find (of_organization org) (others db).subscriptions ≡ none
        → get_or_create_subscription others n org db ≡ ok (new_subscription n org, inserted)
    unfolding insert_or_refetch
    get_or_create-inserted there fresh h =
        missing_run missing
        ∙ rw (
          clear-new_subscription n org (others db).subscriptions fresh
              (find-any-none (of_organization org) (others db).subscriptions h),
          there,
        )

    inserted_one :
        IsConsistent (others db)
        → any (by_id n) (others db).subscriptions ≡ false
        → find (of_organization org) (others db).subscriptions ≡ none
        → OneSubscription org (new_subscription n org) inserted
    inserted_one c fresh h = (
      record {
        subscriptions =
            consistent-insert clash clash_comm (new_subscription n org) (others db).subscriptions
              c.subscriptions
            ∙ clear-new_subscription n org (others db).subscriptions fresh
                (find-any-none (of_organization org) (others db).subscriptions h);
        events = c.events;
      },
      find-append (of_organization org) (others db).subscriptions (new_subscription n org ∷ [])
          ∙ rw h (rw (of_organization-new n org)),
      refl,
    )

-- The call returned the organization's one row.
abbrev pub Returned : (Db → Db) → ℕ → ℕ → Db → Type 0
Returned others n org db =
    (s : Subscription) × (db' : Db) × (get_or_create_subscription others n org db ≡ ok (s, db'))
    × OneSubscription org s db'

-- Between the query and the insert the organization was deleted, with any row that it had.
abbrev pub Vanished : (Db → Db) → ℕ → ℕ → Db → Type 0
Vanished others n org db =
    (organization_exists org (others db) ≡ false)
    × (find (of_organization org) (others db).subscriptions ≡ none)
    × (get_or_create_subscription others n org db ≡ err no_result_found)

-- Where the unique columns hold before and after what other transactions commit between the
-- query and the insert, and the generated identifier is new, get_or_create_subscription returns
-- the one row of the organization in a database whose unique columns hold, or else the
-- organization is gone by then with its row and NoResultFound is raised.
pub get_or_create_one :
    (others : Db → Db) (n org : ℕ) (db : Db)
    → IsConsistent db
    → IsConsistent (others db)
    → any (by_id n) (others db).subscriptions ≡ false
    → Returned others n org db ⊎ Vanished others n org db
get_or_create_one others n org db valid later fresh =
    elim (Option-cases (find (of_organization org) db.subscriptions)) [
      | inr (s, e) ↦ inl (
        s,
        db,
        get_or_create-existing others n org db valid s e,
        (valid, e, of_organization_sound org s db.subscriptions e),
      )
      | inl missing ↦ elim (Option-cases (find (of_organization org) (others db).subscriptions)) [
        | inr (s, e) ↦ inl (
          s,
          others db,
          get_or_create-raced others n org db valid missing s later e,
          (later, e, of_organization_sound org s (others db).subscriptions e),
        )
        | inl absent ↦ elim (Bool-cases (organization_exists org (others db))) [
          | inl there ↦ inl (
            new_subscription n org,
            inserted others n org db valid missing,
            get_or_create-inserted others n org db valid missing there fresh absent,
            inserted_one others n org db valid missing later fresh absent,
          )
          | inr gone ↦
              inr (gone, absent, get_or_create-gone others n org db valid missing gone fresh absent)
        ]
      ]
    ]
