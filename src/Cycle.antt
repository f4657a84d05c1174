-- ===== src/Cycle.antt =====
-- runScheduledCycle of cmd/main.go, which the cron schedule starts: a discovery for each job, and the
-- dispatch of its projects behind the gate. The executor is an interface.
pub mod Dispatches
pub mod Shut
mod Tests
use renovate_docker_operator.Prelude.{
  ℕ, String, Bool, not, Option, none, some, List, [], ◌∷◌, ◌++◌, if◌then◌else◌, select,
}
use renovate_docker_operator.Api.{RenovateJob, ProjectStatus, scheduled, running, only_status}
use renovate_docker_operator.Resilience.{Source, cron}
use renovate_docker_operator.StateStore.Db.{Codec, StoreError, Result, ok, err, Session, Done}
use renovate_docker_operator.StateStore.Projects.{names, same_status, update_project_status}
use renovate_docker_operator.StateStore.Jobs.{list_renovate_jobs_full}
use renovate_docker_operator.Discovery.{run_discovery}
use renovate_docker_operator.Scheduler.{
  DispatchFunc, Label, Dispatcher, Progress, dispatch_projects,
}
use renovate_docker_operator.Executor.State.{World}
use renovate_docker_operator.Executor.Orphans.{set_project_source}
use renovate_docker_operator.Executor.Discoveries.{Waited, Discoverer, dispatch_discovery}

-- What the cycle asks of the executor, and the clock that the store reads. A discovery gives the
-- repositories or `none` for an error.
pub record Runner (W : Type 0) : Type 0 where
  pub discover : RenovateJob → W → Option (List String) × W
  pub set_source : String → Source → W → W
  pub now : W → ℕ × W

-- The executor of docker.go.
pub docker_runner :
    {W : Type 0} (rt : World W) (container_wait : String → W → Waited × W)
    (remove_cancelled : String → W → W) (unmarshal : List ℕ → Option (List String))
    → Runner (Discoverer W)
unfolding dispatch_discovery set_project_source
docker_runner rt container_wait remove_cancelled unmarshal = record {
  discover = dispatch_discovery rt container_wait remove_cancelled unmarshal;
  set_source =
      λ project source d. record d { executor = set_project_source project source d.executor };
  now = λ d.
      let (now, w) = rt.now d.executor.world in
      (now, record d { executor = record d.executor { world = w } });
}

-- The store, the gate, the executor, and the calls of the metrics recorder.
pub record Operator (S W : Type 0) : Type 0 where
  pub store : Session
  pub gate_state : S
  pub world : W
  pub recorded : List (String × Label)

-- The projects that are not running.
abbrev pub candidates : List ProjectStatus → List String
candidates projects = names (select (λ p. not (same_status p.status running)) projects)

abbrev error_of : Result Done → Option StoreError
error_of (ok u) = none
error_of (err e) = some e

module _ {S W : Type 0} (codec : Codec) (runner : Runner W) (dispatcher : Dispatcher S) where
  -- The callback.
  unfoldable pub schedule_project : (job : String) → DispatchFunc (Session × W) StoreError
  schedule_project job project (session, w) =
      let (now, w1) = runner.now (runner.set_source project cron w) in
      let (done, session1) =
        update_project_status codec now project job (only_status scheduled) session in
      (error_of done, (session1, w1))

  -- The projects are those of the job as it was listed, before its discovery.
  unfoldable pub dispatch_candidates : RenovateJob → Operator S W → Operator S W
  unfolding schedule_project
  dispatch_candidates job o =
      let p =
        dispatch_projects dispatcher (candidates job.status.projects) cron
          (schedule_project job.name) o.gate_state (o.store, o.world) in
      record {
        store = p.callback_state.0;
        gate_state = p.gate_state;
        world = p.callback_state.1;
        recorded = o.recorded ++ p.recorded;
      }

  after_discovery : RenovateJob → Result (List String) × Session → Operator S W → Operator S W
  unfolding dispatch_candidates
  after_discovery job (err e, session) o = record o { store = session }
  after_discovery job (ok removed, session) o =
      dispatch_candidates job (record o { store = session })

  discovered : RenovateJob → Option (List String) → Operator S W → Operator S W
  unfolding after_discovery
  discovered job none o = o
  discovered job (some repos) o =
      let (now, w) = runner.now o.world in
      after_discovery job (run_discovery codec now job.name (some repos) o.store)
        (record o { world = w })

  -- The body of the loop.
  unfoldable pub cycle_job : RenovateJob → Operator S W → Operator S W
  unfolding discovered
  cycle_job job o =
      let (repos, w) = runner.discover job o.world in discovered job repos (record o { world = w })

  unfoldable pub cycle_jobs : List RenovateJob → Operator S W → Operator S W
  unfolding cycle_job
  cycle_jobs [] o = o
  cycle_jobs (job ∷ jobs) o = cycle_jobs jobs (cycle_job job o)

  after_list : Result (List RenovateJob) × Session → Operator S W → Operator S W
  unfolding cycle_jobs
  after_list (err e, session) o = record o { store = session }
  after_list (ok jobs, session) o = cycle_jobs jobs (record o { store = session })

  unfoldable pub run_scheduled_cycle : (skip_discovery : Bool) → Operator S W → Operator S W
  unfolding after_list
  run_scheduled_cycle skip_discovery o =
      if skip_discovery then o else after_list (list_renovate_jobs_full codec o.store) o
