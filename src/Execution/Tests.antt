-- ===== src/Execution/Tests.antt =====
-- A trigger with a deployment, its run and the report of its end.
use floww_backend.Prelude.{◌≡◌, refl, true, none, some, List, [], ◌∷◌}
use floww_backend.Session.{ok}
use floww_backend.Table.{consistent}
use floww_backend.Execution.History.{same_execution}
use floww_backend.Execution.World.{World}
use floww_backend.Execution.Trigger.{
  Setup, Trigger, WorkflowDeployment, active, Provider, get_active_deployment, image_of,
  handle_trigger,
}
use floww_backend.Execution.Outcomes.{running, with_execution, missing_image_stays_started}
use floww_backend.Execution.Sound.{Sound}
use floww_backend.Execution.Events.{Event, webhook, report, serve_all, serve_all-Sound}

abbrev deployment : WorkflowDeployment
deployment = record {
  id = 4;
  workflow_id = 1;
  runtime = record { id = 6; image_uri = some "image"; image_hash = none };
  user_code = "code";
  status = active;
  deployed_at = 10;
}

abbrev bare : WorkflowDeployment
bare = record deployment { runtime = record { id = 6; image_uri = none; image_hash = none } }

abbrev provider : Provider
provider = record {
  id = 3;
  namespace_id = 1;
  type = "gitlab";
  alias = "default";
  encrypted_config = "{}";
}

abbrev trigger : Trigger
trigger = record {
  id = 2;
  workflow = record { id = 1; namespace_id = 1; active = some true };
  provider = provider;
  trigger_type = "onPush";
  input = "{}";
}

abbrev setup : List WorkflowDeployment → Setup
setup deployments = record {
  deployments = deployments;
  providers = provider ∷ [];
  triggers = trigger ∷ [];
  generate_invocation_token = λ _. "token";
  get_image_digest = λ _. ok none;
  decrypt_config = λ s. ok s;
  invoke_trigger = λ _. ok tt;
  is_cloud = true;
  may_execute = λ now executions workflow_id. true;
  config_key = λ type alias. type;
}

abbrev empty_world : World
empty_world = record {
  rows = record { executions = []; logs = [] };
  committed = record { executions = []; logs = [] };
  invoked = [];
}

no_executions : consistent same_execution empty_world.rows.executions ≡ true
unfolding consistent
no_executions = refl

bare_active : get_active_deployment (setup (bare ∷ [])) 1 ≡ some bare
unfolding get_active_deployment
bare_active = refl

bare_image : image_of (setup (bare ∷ [])) bare.runtime ≡ ok none
unfolding image_of
bare_image = refl

missing_image_stays_started_example :
    handle_trigger (setup (bare ∷ [])) 50 trigger "{}" 9 empty_world
    ≡ (ok none, with_execution (running 9 50 trigger 4) empty_world)
missing_image_stays_started_example =
    missing_image_stays_started (setup (bare ∷ [])) 50 trigger "{}" 9 empty_world no_executions refl
      bare refl refl bare_active bare_image

abbrev sound : Sound empty_world
sound = record { synced = refl; unique = no_executions; recorded = refl }

abbrev events : List Event
events =
    webhook 50 "{}" ((trigger, 9) ∷ (trigger, 10) ∷ [])
    ∷ report 60 9 (some "token") (record { error = none; logs = none; duration_ms = some 7 })
    ∷ report 70 9 (some "token") (record { error = some "late"; logs = none; duration_ms = none })
    ∷ []

serve_all-Sound_example :
    Sound
      (serve_all (setup (deployment ∷ [])) (λ s. s) (λ _. ok 0) (λ _. some 1) events empty_world)
serve_all-Sound_example =
    serve_all-Sound (setup (deployment ∷ [])) (λ s. s) (λ _. ok 0) (λ _. some 1) events empty_world
      sound
