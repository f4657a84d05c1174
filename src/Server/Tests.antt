-- ===== src/Server/Tests.antt =====
-- Requests to a small server, and the theorems about them at concrete inputs.
use renovate_docker_operator.Prelude.{◌≡◌, refl, true, false, none, some, [], ◌∷◌, contains}
use renovate_docker_operator.StateStore.Db.{execute}
use renovate_docker_operator.StateStore.Projects.{update_project_status}
use renovate_docker_operator.StateStore.Projects.Updates.{map_option}
use renovate_docker_operator.StateStore.Projects.Statuses.{sound, status_in, scheduled_if}
use renovate_docker_operator.Resilience.{Manager, open_state}
use renovate_docker_operator.Samples.{codec, db, listed_job, listed_run}
use renovate_docker_operator.Server.State.{Server, decoded}
use renovate_docker_operator.Server.{
  passes_csrf, run_renovate_for_project, run_renovate_for_all_projects, reset_breaker,
}
use renovate_docker_operator.Server.Breaker.{reset_breaker_replays}
use renovate_docker_operator.Server.RunAll.{started, run_all_schedules_idle}

-- Two webhooks are queued, one of them for a project that the job does not have.
abbrev manager : Manager
manager = record {
  cfg = record {
    failure_min_runtime = 30;
    backoff_base = 30;
    backoff_max = 3600;
    rapid_fail_window = 300;
    rapid_fail_threshold = 3;
    replay_queue_cap = 100;
  };
  projects = [];
  rapid_fails = [];
  state = open_state;
  open_since = 5;
  open_reason = none;
  pending_replay = "b" ∷ "gone" ∷ [];
  last_reset = 0;
  last_tripped = 5;
}

abbrev server : Server
server = record {
  store = sound db;
  resilience = some manager;
  metrics = none;
  running = [];
  discovery_id = [];
}

abbrev failing : Server
failing = record server { store = record { db = db; faults = true ∷ [] } }

-- A browser's request of another site is refused, one without an Origin is not.
csrf_run :
    (passes_csrf "POST" "https://evil.example" (some "evil.example") "operator.example" ≡ false)
    × (passes_csrf "POST" "" none "operator.example" ≡ true)
    × (passes_csrf "GET" "https://evil.example" (some "evil.example") "operator.example" ≡ true)
unfolding passes_csrf
csrf_run = (refl, refl, refl)

-- A project that the job does not have is answered with 500.
run_project_run :
    (run_renovate_for_project codec 7
      (decoded (record { renovate_job = "default"; project = "gone" }))
      server).0.status
    ≡ 500
unfolding run_renovate_for_project update_project_status execute
run_project_run = refl

reset_breaker_replays_example :
    status_in listed_job.name "b" (reset_breaker codec 9 server).1.store.db
    ≡ scheduled_if (contains "b" manager.pending_replay) (status_in listed_job.name "b" db)
reset_breaker_replays_example =
    reset_breaker_replays codec 9 server manager db listed_job [] "b" refl listed_run

run_all_schedules_idle_example :
    ((run_renovate_for_all_projects codec 9 (decoded "default") server).0.status ≡ 200)
    × (status_in "default" "b"
          (run_renovate_for_all_projects codec 9 (decoded "default") server).1.store.db
        ≡ map_option started (status_in "default" "b" db))
run_all_schedules_idle_example =
    run_all_schedules_idle codec 9 "default" server db "b" refl refl (refl, (refl, tt))
