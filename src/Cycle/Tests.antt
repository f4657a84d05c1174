-- ===== src/Cycle/Tests.antt =====
-- A cron cycle over a small store, and the theorems about it at concrete inputs.
use renovate_docker_operator.Prelude.{
  ℕ, suc, ◌+◌, ◌≡◌, refl, true, false, none, some, [], ◌∷◌, pos, lookup, contains,
}
use renovate_docker_operator.Resilience.{Config, cron, open_state, new, get_or_create_project}
use renovate_docker_operator.StateStore.Db.{ok, query, transaction, update}
use renovate_docker_operator.StateStore.Projects.{reconcile_projects}
use renovate_docker_operator.StateStore.Projects.Statuses.{sound, status_in, scheduled_if}
use renovate_docker_operator.StateStore.Jobs.{build_renovate_job}
use renovate_docker_operator.Discovery.{run_discovery}
use renovate_docker_operator.Scheduler.{Dispatcher}
use renovate_docker_operator.Scheduler.Dispatch.{admitted}
use renovate_docker_operator.Scheduler.Gated.{Clocked, managed}
use renovate_docker_operator.Samples.{codec, db, listed_job, listed_run}
use renovate_docker_operator.Cycle.{Runner, Operator, cycle_job, run_scheduled_cycle}
use renovate_docker_operator.Cycle.Dispatches.{waiting, cycle_job-schedules}
use renovate_docker_operator.Cycle.Shut.{IsShut, discover_each, run_scheduled_cycle-IsShut}

-- Every discovery gives the two projects that are there; the world counts the calls.
abbrev runner : Runner ℕ
runner = record {
  discover = λ job w. (some ("a" ∷ "b" ∷ []), suc w);
  set_source = λ project source w. w;
  now = λ w. (w, suc w);
}

abbrev ungated : Dispatcher ℕ
ungated = record { gate = none; metrics = true }

abbrev operator : Operator ℕ ℕ
operator = record { store = sound db; gate_state = 0; world = 0; recorded = [] }

found_run :
    run_discovery codec 1 listed_job.name (some ("a" ∷ "b" ∷ [])) (sound db) ≡ (ok [], sound db)
unfolding run_discovery reconcile_projects query transaction update contains build_renovate_job
found_run = refl

cycle_job-schedules_example :
    status_in listed_job.name "b" (cycle_job codec runner ungated listed_job operator).store.db
    ≡ scheduled_if
        (contains "b"
          (admitted ungated.gate cron (waiting listed_job.status.projects) operator.gate_state))
        (status_in listed_job.name "b" db)
cycle_job-schedules_example =
    cycle_job-schedules codec runner ungated listed_job operator ("a" ∷ "b" ∷ []) [] db "b" refl
      found_run

abbrev defaults : Config
defaults = record {
  failure_min_runtime = pos 0;
  backoff_base = pos 0;
  backoff_max = pos 0;
  rapid_fail_window = pos 0;
  rapid_fail_threshold = pos 0;
  replay_queue_cap = pos 0;
}

abbrev shut : Operator Clocked ℕ
shut = record {
  store = sound db;
  gate_state = record {
    manager = record (new defaults) { state = open_state };
    readings = λ n. 1000 + n;
    reads = 0;
  };
  world = 0;
  recorded = [];
}

shut-IsShut : IsShut shut.gate_state
unfolding get_or_create_project new lookup
shut-IsShut = record { opened = refl; unmarked = λ p. refl }

run_scheduled_cycle-IsShut_example :
    let after = run_scheduled_cycle codec runner (managed true) false shut in
    ((after.store, after.world) ≡ discover_each codec runner (listed_job ∷ []) (sound db, 0))
    × IsShut after.gate_state
run_scheduled_cycle-IsShut_example =
    run_scheduled_cycle-IsShut codec runner true shut (listed_job ∷ []) (sound db) shut-IsShut
      listed_run
