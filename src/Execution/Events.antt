-- ===== src/Execution/Events.antt =====
-- Sequences of requests to app/routes/webhooks.py and reports to app/routes/executions.py.
use floww_backend.Prelude.{ℕ, ◌≡◌, refl, Option, List, [], ◌∷◌, String}
use floww_backend.Session.{Result, ok, err}
use floww_backend.Execution.History.{Db}
use floww_backend.Execution.World.{World}
use floww_backend.Execution.Trigger.{Setup, Trigger, handle_triggers}
use floww_backend.Execution.Completion.{Report, complete_execution}
use floww_backend.Execution.Sound.{Sound, handle_triggers-Sound}
use floww_backend.Execution.Reports.{report-Ended, ended-Sound}

-- A request with the triggers that it starts and the identifiers of their records, or a report.
pub data Event : Type 0 where
  webhook : ℕ → String → List (Trigger × ℕ) → Event
  report : ℕ → ℕ → Option String → Report → Event

module _ (cfg : Setup) (lower : String → String) (fromisoformat : String → Result ℕ)
    (verify : String → Option ℕ) where
  unfoldable pub serve : Event → World → World
  serve (webhook now event_data l) w =
      let after = (handle_triggers cfg now event_data l (record w { rows = w.committed })).1 in
      record after { rows = after.committed }
  serve (report now execution_id token body) w =
      elim (complete_execution lower fromisoformat verify now execution_id token body w.committed) [
        | ok (_, db) ↦ record w { rows = db; committed = db }
        | err _ ↦ record w { rows = w.committed }
      ]

  unfoldable pub serve_all : List Event → World → World
  serve_all [] w = w
  serve_all (event ∷ events) w = serve_all events (serve event w)

  serve-Sound : (event : Event) (w : World) → Sound w → Sound (serve event w)
  unfolding serve
  serve-Sound (webhook now event_data l) w good = resumed (
      handle_triggers-Sound cfg now event_data l (record w { rows = w.committed })
        (record { synced = refl; unique = good.unique; recorded = good.recorded }))
    where
      resumed : {v : World} → Sound v → Sound (record v { rows = v.committed })
      resumed g = record { synced = refl; unique = g.unique; recorded = g.recorded }
  serve-Sound (report now n token body) w good =
      go (complete_execution lower fromisoformat verify now n token body w.committed) refl
    where
      go :
          (x : Result (Unit {0} × Db))
          → complete_execution lower fromisoformat verify now n token body w.committed ≡ x
          → Sound (serve (report now n token body) w)
      go (ok (u, db)) h =
          rw (serve, h)
            (ended-Sound w db good
              (report-Ended lower fromisoformat verify now n token body w.committed db h))
      go (err e) h =
          rw (serve, h) (record { synced = refl; unique = good.unique; recorded = good.recorded })

  -- Where the session starts from the committed rows, the executions have unique identifiers and
  -- every call that the runtime has got stands in them as started, this holds again after any
  -- sequence of webhook requests, with any triggers and record identifiers and any answers of
  -- the runtime, and of reports of the end of an execution; a step that raises keeps what it had
  -- committed.
  pub serve_all-Sound : (events : List Event) (w : World) → Sound w → Sound (serve_all events w)
  unfolding serve_all
  serve_all-Sound [] w good = good
  serve_all-Sound (event ∷ events) w good =
      serve_all-Sound events (serve event w) (serve-Sound event w good)
