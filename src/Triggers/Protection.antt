-- ===== src/Triggers/Protection.antt =====
-- What a sync leaves in place.
use floww_backend.Prelude.{
  ℕ, ◌+◌, ◌≡◌, refl, inl, inr, Bool, true, false, not, ◌||◌, Option, none, some, List, [], ◌∷◌,
  ◌++◌, ◌==◌, all, any, select, find, arith, Bool-cases,
}
use text.Mathlib.TextEquality.{eq_iff}
use floww_backend.Session.{Result, ok, err}
use floww_backend.Table.{consistent, clear, put}
use floww_backend.Triggers.Sync.{
  Identity, Provider, Trigger, Db, Handlers, same_identity, among, same_trigger, identity_of,
  set_identity, build_identity_map, create_trigger, create_triggers, delete_triggers, refreshed,
  refresh_triggers, existing_map, to_remove, to_keep, to_add, apply_plan,
}

-- The row is still there.
abbrev pub stands : ℕ → List Trigger → Bool
stands id rows = any (λ (t : Trigger). t.id == id) rows

abbrev pub named : List Identity → List Identity → Option Identity → Bool
named new deployed none = true
named new deployed (some i) = among i new || among i deployed

module _ (id : ℕ) where
  pub stands-found :
      (r : Trigger) (rows : List Trigger)
      → find (λ (t : Trigger). t.id == id) rows ≡ some r
      → stands id rows ≡ true
  stands-found r [] e = absurd (ground arith)
  stands-found r (x ∷ rows) e = ground (arith, stands-found r rows)

  stands-add :
      (rows : List Trigger) (t : Trigger)
      → stands id rows ≡ true
      → stands id (rows ++ t ∷ []) ≡ true
  stands-add [] t h = absurd (ground arith)
  stands-add (x ∷ rows) t h = ground (arith, stands-add rows t)

  stands-select :
      (t : Trigger) (rows : List Trigger)
      → (t.id == id) ≡ false
      → stands id rows ≡ true
      → stands id (select (λ x. not (same_trigger t x)) rows) ≡ true
  stands-select t [] n h = h
  stands-select t (x ∷ rows) n h = ground (arith, stands-select t rows n)

  stands-delete_triggers :
      (entries : List (Identity × Trigger)) (rows : List Trigger)
      → all (λ (e : Identity × Trigger). not (e.1.id == id)) entries ≡ true
      → stands id rows ≡ true
      → stands id (delete_triggers entries rows) ≡ true
  unfolding delete_triggers
  stands-delete_triggers [] rows a h = h
  stands-delete_triggers ((i, t) ∷ rest) rows a h =
      stands-delete_triggers rest (select (λ x. not (same_trigger t x)) rows) (ground arith)
        (stands-select t rows (ground arith) h)

  stands-put :
      (t : Trigger) (rows : List Trigger)
      → stands id rows ≡ true
      → stands id (put same_trigger t rows) ≡ true
  unfolding put
  stands-put t [] h = h
  stands-put t (x ∷ rows) h = ground (arith, stands-put t rows)

  stands-refresh_triggers :
      (cfg : Handlers) (providers : List Provider) (entries : List (Identity × Trigger))
      (rows : List Trigger)
      → stands id rows ≡ true
      → stands id (refresh_triggers cfg providers entries rows) ≡ true
  unfolding refresh_triggers
  stands-refresh_triggers cfg providers [] rows h = h
  stands-refresh_triggers cfg providers ((i, t) ∷ rest) rows h =
      stands-refresh_triggers cfg providers rest (put same_trigger (refreshed cfg providers t) rows)
        (stands-put (refreshed cfg providers t) rows h)

  -- The rows after a creation, whose failure leaves those before it.
  abbrev landed : Db → Result (Unit {0} × Db) → List Trigger
  landed db (ok (_, after)) = after.triggers
  landed db (err _) = db.triggers

  module _ (cfg : Handlers) (workflow_id namespace_id : ℕ) where
    stands-create_trigger :
        (new_id : ℕ) (i : Identity) (db : Db)
        → stands id db.triggers ≡ true
        → stands id (landed db (create_trigger cfg new_id workflow_id namespace_id i db)) ≡ true
    unfolding create_trigger
    stands-create_trigger new_id i db h = grind (arith, stands-add)

    stands-create_rest :
        (new_id : ℕ) (i : Identity) (rest : List Identity) (db : Db) (r : Result (Unit {0} × Db))
        → create_trigger cfg new_id workflow_id namespace_id i db ≡ r
        → ((d : Db)
            → stands id d.triggers ≡ true
            → stands id
                (create_triggers cfg (new_id + 1) workflow_id namespace_id rest d).1.triggers
              ≡ true)
        → stands id db.triggers ≡ true
        → stands id (landed db r) ≡ true
        → stands id (create_triggers cfg new_id workflow_id namespace_id (i ∷ rest) db).1.triggers
          ≡ true
    unfolding create_triggers
    stands-create_rest new_id i rest db (ok (tt, after)) e k h l = ground (arith, k after)
    stands-create_rest new_id i rest db (err x) e k h l = ground (arith, k db)

    stands-create_triggers :
        (new_id : ℕ) (identities : List Identity) (db : Db)
        → stands id db.triggers ≡ true
        → stands id (create_triggers cfg new_id workflow_id namespace_id identities db).1.triggers
          ≡ true
    unfolding create_triggers
    stands-create_triggers new_id [] db h = h
    stands-create_triggers new_id (i ∷ rest) db h =
        stands-create_rest new_id i rest db
          (create_trigger cfg new_id workflow_id namespace_id i db) refl
          (λ d g. stands-create_triggers (new_id + 1) rest d g) h
          (stands-create_trigger new_id i db h)

  module _ (new deployed : List Identity) where
    -- The entry is not of the row, or its identity is needed.
    abbrev safe : Identity × Trigger → Bool
    safe e = not (e.1.id == id) || (among e.0 new || among e.0 deployed)

    abbrev safe_row : List Provider → Trigger → Bool
    safe_row providers t = not (t.id == id) || named new deployed (identity_of providers t)

    same_identity_eq : (i j : Identity) → same_identity i j ≡ true → i ≡ j
    unfolding same_identity
    same_identity_eq i j h = ground (
      arith,
      eq_iff i.provider_type j.provider_type,
      eq_iff i.provider_alias j.provider_alias,
      eq_iff i.trigger_type j.trigger_type,
      eq_iff i.input j.input,
    )

    safe-set_identity :
        (i : Identity) (t : Trigger) (found : List (Identity × Trigger))
        → safe (i, t) ≡ true
        → all safe found ≡ true
        → all safe (set_identity i t found) ≡ true
    unfolding set_identity
    safe-set_identity i t [] k h = ground arith
    safe-set_identity i t ((j, u) ∷ rest) k h =
        ground (arith, same_identity_eq i j, safe-set_identity i t rest)

    safe-build_identity_map :
        (providers : List Provider) (triggers : List Trigger) (found : List (Identity × Trigger))
        → all (safe_row providers) triggers ≡ true
        → all safe found ≡ true
        → all safe (build_identity_map providers triggers found) ≡ true
    unfolding build_identity_map
    safe-build_identity_map providers [] found k h = h
    safe-build_identity_map providers (t ∷ triggers) found k h =
        grind (arith, safe-build_identity_map providers triggers, safe-set_identity)

    module _ (workflow_id : ℕ) (providers : List Provider) (r : Trigger) where
      safe-clear :
          (rows : List Trigger)
          → (r.id == id) ≡ true
          → clear same_trigger r rows ≡ true
          → all (safe_row providers) (select (λ (t : Trigger). t.workflow_id == workflow_id) rows)
            ≡ true
      safe-clear [] k c = refl
      safe-clear (x ∷ rows) k c = elim (Bool-cases (x.workflow_id == workflow_id)) [
        | inl h ↦ ground (arith, safe-clear rows)
        | inr h ↦ ground (arith, safe-clear rows)
      ]

      safe-workflow :
          (rows : List Trigger)
          → consistent same_trigger rows ≡ true
          → find (λ (t : Trigger). t.id == id) rows ≡ some r
          → (not (r.workflow_id == workflow_id) || safe_row providers r) ≡ true
          → all (safe_row providers) (select (λ (t : Trigger). t.workflow_id == workflow_id) rows)
            ≡ true
      unfolding consistent
      safe-workflow [] c e k = refl
      safe-workflow (x ∷ rows) c e k = elim (Bool-cases (x.id == id)) [
        | inl h ↦ ground (arith, safe-clear rows)
        | inr h ↦ ground (arith, safe-workflow rows)
      ]

    remove-spares :
        (entries : List (Identity × Trigger))
        → all safe entries ≡ true
        → all (λ (e : Identity × Trigger). not (e.1.id == id)) (to_remove new deployed entries)
          ≡ true
    remove-spares [] a = refl
    remove-spares (e ∷ entries) a = ground (arith, remove-spares entries)

-- On triggers with unique identifiers, a sync of a workflow leaves in place every trigger of
-- another workflow, and every trigger of its own whose identity is asked for or deployed or
-- whose provider is missing, whatever the handlers of the providers return.
pub protected_triggers_stay :
    (cfg : Handlers) (new_id workflow_id namespace_id : ℕ) (new deployed : List Identity) (db : Db)
    (r : Trigger)
    → consistent same_trigger db.triggers ≡ true
    → find (λ (t : Trigger). t.id == r.id) db.triggers ≡ some r
    → (not (r.workflow_id == workflow_id) || named new deployed (identity_of db.providers r)) ≡ true
    → stands r.id (apply_plan cfg new_id workflow_id namespace_id new deployed db).1.triggers ≡ true
unfolding apply_plan
protected_triggers_stay cfg new_id workflow_id namespace_id new deployed db r unique found needed =
    stands-refresh_triggers r.id cfg created.1.providers (to_keep new existing) created.1.triggers (
      stands-create_triggers r.id cfg workflow_id namespace_id new_id (to_add new existing)
        remaining
        (stands-delete_triggers r.id (to_remove new deployed existing) db.triggers spared
          (stands-found r.id r db.triggers found)))
  where
    existing : List (Identity × Trigger)
    existing = existing_map workflow_id db

    remaining : Db
    remaining = record db {
      triggers = delete_triggers (to_remove new deployed existing) db.triggers;
    }

    created : List Identity × Db
    created = create_triggers cfg new_id workflow_id namespace_id (to_add new existing) remaining

    spared :
        all (λ (e : Identity × Trigger). not (e.1.id == r.id)) (to_remove new deployed existing)
        ≡ true
    spared = remove-spares r.id new deployed existing (
        safe-build_identity_map r.id new deployed db.providers
          (select (λ (t : Trigger). t.workflow_id == workflow_id) db.triggers) []
          (safe-workflow r.id new deployed workflow_id db.providers r db.triggers unique found
            (ground arith))
          refl)
