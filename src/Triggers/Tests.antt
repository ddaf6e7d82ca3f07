-- ===== src/Triggers/Tests.antt =====
-- A sync of a workflow with two triggers, one of which is deployed, whose handlers fail to refresh.
use floww_backend.Prelude.{ℕ, ◌≡◌, refl, true, some, not, String, ◌||◌, ◌==◌, map, [], ◌∷◌}
use floww_backend.Session.{ok, err, value_error, scalar_one_or_none}
use floww_backend.Table.{consistent, put}
use floww_backend.Triggers.Sync.{
  distinct, among, Identity, Trigger, Db, Handlers, same_identity, same_trigger, identity_of,
  set_identity, build_identity_map, create_trigger, create_triggers, delete_triggers, refreshed,
  refresh_triggers, apply_plan,
}
use floww_backend.Triggers.Protection.{stands}
use floww_backend.Execution.Trigger.{active}
use floww_backend.Triggers.Requests.{
  TriggerMetadata, Setup, wanted, unique_providers, deployed_identities, newest, missing_provider,
  ensure_provider_exists, ensure_providers, sync_triggers, synced,
}
use floww_backend.Triggers.Needed.{needed_triggers_stay}

abbrev handlers : Handlers
handlers = record { create = λ p t. ok "made"; refresh = λ p t. err (value_error "refresh") }

abbrev identity : String → Identity
identity kind = record {
  provider_type = "builtin";
  provider_alias = "default";
  trigger_type = kind;
  input = "{}";
}

abbrev stored : ℕ → String → Trigger
stored id kind = record {
  id = id;
  workflow_id = 7;
  provider_id = 1;
  trigger_type = kind;
  input = "{}";
  state = "set";
}

abbrev rows : Db
rows = record {
  providers = record { id = 1; namespace_id = 4; type = "builtin"; alias = "default" } ∷ [];
  triggers = stored 1 "cron" ∷ stored 2 "webhook" ∷ [];
}

rows_unique : consistent same_trigger rows.triggers ≡ true
unfolding consistent
rows_unique = refl

abbrev manual : TriggerMetadata
manual = record {
  provider_type = some "builtin";
  provider_alias = some "default";
  trigger_type = "manual";
  input = "{}";
}

abbrev setup : Setup
setup = record {
  handlers = handlers;
  setup_steps = λ _. some 0;
  deployments =
      record {
        workflow_id = 7;
        status = active;
        deployed_at = 5;
        trigger_definitions = identity "cron" ∷ [];
      }
      ∷ [];
}

cron_seen : identity_of rows.providers (stored 1 "cron") ≡ some (identity "cron")
unfolding identity_of
cron_seen = refl

cron_needed :
    (not (7 == 7)
      || (among (identity "cron") (wanted (manual ∷ []))
          || among (identity "cron") (deployed_identities setup.deployments 7)))
    ≡ true
unfolding same_identity wanted deployed_identities newest
cron_needed = refl

needed_triggers_stay_example : stands 1 (synced setup 9 7 4 (manual ∷ []) rows).triggers ≡ true
needed_triggers_stay_example =
    needed_triggers_stay setup 9 7 4 (manual ∷ []) rows (stored 1 "cron") (identity "cron")
      rows_unique refl cron_seen cron_needed

-- The other trigger is gone, and the new one has an identifier of its own.
plan_applied :
    map (λ (t : Trigger). t.id) (synced setup 9 7 4 (manual ∷ []) rows).triggers ≡ 1 ∷ 9 ∷ []
unfolding synced sync_triggers wanted unique_providers deployed_identities newest missing_provider
    ensure_provider_exists ensure_providers apply_plan distinct identity_of same_identity
    build_identity_map set_identity create_trigger create_triggers delete_triggers refreshed
    refresh_triggers consistent put scalar_one_or_none
plan_applied = refl
