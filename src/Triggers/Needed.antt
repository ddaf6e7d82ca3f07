-- ===== src/Triggers/Needed.antt =====
-- The triggers that a request to sync a workflow leaves in place (`sync_triggers` of
-- app/services/trigger_service.py).
use floww_backend.Prelude.{
  ℕ, ◌+◌, ◌≡◌, refl, true, not, ◌||◌, some, List, [], ◌∷◌, ◌++◌, String, ◌==◌, find, arith, subst,
  sym, ◌∙◌,
}
use floww_backend.Session.{Result, ok, err, >>=-eq-ok}
use floww_backend.Table.{consistent}
use floww_backend.Triggers.Sync.{Identity, Provider, Trigger, Db, among, same_trigger, identity_of}
use floww_backend.Triggers.Protection.{stands, stands-found, protected_triggers_stay}
use floww_backend.Triggers.Requests.{
  TriggerMetadata, Setup, wanted, unique_providers, deployed_identities, missing_provider,
  ensure_provider_exists, ensure_providers, sync_triggers, synced,
}

module _ (r : Trigger) (i : Identity) where
  identity_of-append :
      (providers : List Provider) (p : Provider)
      → identity_of providers r ≡ some i
      → identity_of (providers ++ p ∷ []) r ≡ some i
  unfolding identity_of
  identity_of-append [] p e = absurd (ground arith)
  identity_of-append (q ∷ providers) p e = ground (arith, identity_of-append providers p)

  missing_provider-keeps :
      (cfg : Setup) (new_id namespace_id : ℕ) (type alias : String) (db after : Db)
      → missing_provider cfg new_id namespace_id type alias db ≡ ok (tt, after)
      → identity_of db.providers r ≡ some i
      → (after.triggers ≡ db.triggers) × (identity_of after.providers r ≡ some i)
  unfolding missing_provider
  missing_provider-keeps cfg new_id namespace_id type alias db after e k = ground (
    arith,
    identity_of-append db.providers
        (record { id = new_id; namespace_id = namespace_id; type = type; alias = alias }) k,
  )

  ensure_provider-keeps :
      (cfg : Setup) (new_id namespace_id : ℕ) (type alias : String) (db after : Db)
      → ensure_provider_exists cfg new_id namespace_id type alias db ≡ ok (tt, after)
      → identity_of db.providers r ≡ some i
      → (after.triggers ≡ db.triggers) × (identity_of after.providers r ≡ some i)
  unfolding ensure_provider_exists
  ensure_provider-keeps cfg new_id namespace_id type alias db after e k =
      ground (arith, missing_provider-keeps cfg new_id namespace_id type alias db after)

  ensure_providers-keeps :
      (cfg : Setup) (new_id namespace_id : ℕ) (pairs : List (String × String)) (db after : Db)
      → ensure_providers cfg new_id namespace_id pairs db ≡ ok (tt, after)
      → identity_of db.providers r ≡ some i
      → (after.triggers ≡ db.triggers) × (identity_of after.providers r ≡ some i)
  unfolding ensure_providers
  ensure_providers-keeps cfg new_id namespace_id [] db after e k = ground arith
  ensure_providers-keeps cfg new_id namespace_id ((type, alias) ∷ rest) db after e k =
      let (_, s, h, l) =
        >>=-eq-ok (ensure_provider_exists cfg new_id namespace_id type alias) _ db e in
      let (same, seen) = ensure_provider-keeps cfg new_id namespace_id type alias db s h k in
      let (same', seen') =
        ensure_providers-keeps cfg (new_id + 1) namespace_id rest s after l seen in
      (same' ∙ same, seen')

-- On triggers with unique identifiers, after the transaction of a sync, returned or raised and
-- whatever the handlers of the providers return, a trigger whose provider is there stands where
-- it is of another workflow, or where its identity is among those asked for or among those of
-- the newest active deployment of the workflow.
pub needed_triggers_stay :
    (cfg : Setup) (new_id workflow_id namespace_id : ℕ) (metadata : List TriggerMetadata) (db : Db)
    (r : Trigger) (i : Identity)
    → consistent same_trigger db.triggers ≡ true
    → find (λ (t : Trigger). t.id == r.id) db.triggers ≡ some r
    → identity_of db.providers r ≡ some i
    → (not (r.workflow_id == workflow_id)
        || (among i (wanted metadata) || among i (deployed_identities cfg.deployments workflow_id)))
      ≡ true
    → stands r.id (synced cfg new_id workflow_id namespace_id metadata db).triggers ≡ true
unfolding synced
needed_triggers_stay cfg new_id workflow_id namespace_id metadata db r i unique found seen needed =
    go (sync_triggers cfg new_id workflow_id namespace_id metadata db) refl
  where
    go :
        (x : Result (Unit {0} × Db))
        → sync_triggers cfg new_id workflow_id namespace_id metadata db ≡ x
        → stands r.id (synced cfg new_id workflow_id namespace_id metadata db).triggers ≡ true
    go (err e) k = ground (arith, stands-found r.id r db.triggers found)
    go (ok (tt, after)) k =
        let (_, s, h, l) =
          >>=-eq-ok
            (ensure_providers cfg new_id namespace_id
              (("builtin", "default") ∷ unique_providers (wanted metadata)))
            _ db k in
        let (same, seen_after) =
          ensure_providers-keeps r i cfg new_id namespace_id
            (("builtin", "default") ∷ unique_providers (wanted metadata)) db s h seen in
        ground (
          arith,
          protected_triggers_stay cfg.handlers new_id workflow_id namespace_id (wanted metadata)
              (deployed_identities cfg.deployments workflow_id) s r
              (subst (λ l. consistent same_trigger l ≡ true) (sym same) unique)
              (subst (λ l. find (λ (t : Trigger). t.id == r.id) l ≡ some r) (sym same) found)
              (ground arith),
          l,
        )
