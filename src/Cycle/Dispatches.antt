-- ===== src/Cycle/Dispatches.antt =====
-- Which projects a job's turn of runScheduledCycle of cmd/main.go schedules.
use renovate_docker_operator.Prelude.{
  String, ◌≡◌, refl, ◌∙◌, ap, sym, some, List, [], ◌∷◌, str_eq, contains, not, select,
  if◌then◌else◌,
}
use renovate_docker_operator.Api.{
  RenovateJob, ProjectStatus, RenovateProjectStatus, scheduled, running, completed, failed,
  cancelled,
}
use renovate_docker_operator.StateStore.Projects.{names, same_status}
use renovate_docker_operator.Resilience.{cron}
use renovate_docker_operator.StateStore.Db.{Db, Codec, ok, Session}
use renovate_docker_operator.StateStore.Projects.Statuses.{
  sound, status_in, scheduled_if, scheduled_twice, update_project_status-sound,
  status_in-update_project_status,
}
use renovate_docker_operator.Discovery.{run_discovery}
use renovate_docker_operator.Scheduler.{Dispatcher}
use renovate_docker_operator.Scheduler.Dispatch.{admitted, run_all, dispatch_projects_lem}
use renovate_docker_operator.Cycle.{
  Runner, Operator, candidates, schedule_project, dispatch_candidates, after_discovery, discovered,
  cycle_job,
}

-- The names of the projects that are not running, in their order.
unfoldable pub waiting : List ProjectStatus → List String
waiting [] = []
waiting (p ∷ projects) =
    let rest = waiting projects in elim p.status [ running ↦ rest | _ ↦ p.name ∷ rest ]

candidates-waiting : (projects : List ProjectStatus) → candidates projects ≡ waiting projects
unfolding waiting
candidates-waiting [] = refl
candidates-waiting (p ∷ projects) = go p.status (candidates-waiting projects)
  where
    go :
        (s : RenovateProjectStatus)
        → candidates projects ≡ waiting projects
        → names (
            if not (same_status s running)
            then p ∷ select (λ r. not (same_status r.status running)) projects
            else select (λ r. not (same_status r.status running)) projects)
          ≡ (elim s as (λ _. List String) [
            | running ↦ waiting projects
            | _ ↦ p.name ∷ waiting projects
          ])
    go scheduled e = ap (λ (l : List String). p.name ∷ l) e
    go running e = e
    go completed e = ap (λ (l : List String). p.name ∷ l) e
    go failed e = ap (λ (l : List String). p.name ∷ l) e
    go cancelled e = ap (λ (l : List String). p.name ∷ l) e

module _ {S W : Type 0} (codec : Codec) (runner : Runner W) (dispatcher : Dispatcher S) where
  status_in-run_all :
      (job q : String) (projects : List String) (d : Db) (w : W)
      → status_in job q
          (run_all (schedule_project codec runner dispatcher job) projects (sound d, w)).0.db
        ≡ scheduled_if (contains q projects) (status_in job q d)
  unfolding run_all schedule_project contains
  status_in-run_all job q [] d w = refl
  status_in-run_all job q (p ∷ projects) d w =
      let w1 = (runner.now (runner.set_source p cron w)).1 in
      let now = (runner.now (runner.set_source p cron w)).0 in
      ap
        (λ s.
          status_in job q
            (run_all (schedule_project codec runner dispatcher job) projects (s, w1)).0.db)
        (update_project_status-sound codec now job p d)
      ∙ status_in-run_all job q projects _ w1
      ∙ ap (scheduled_if (contains q projects)) (
          sym (
            ap (λ (s : Session). status_in job q s.db)
              (update_project_status-sound codec now job p d))
          ∙ status_in-update_project_status codec now job p q d)
      ∙ scheduled_twice (str_eq p q) (contains q projects) (status_in job q d)

  -- Where a job's discovery reconciles and no statement fails, its turn schedules exactly those
  -- projects that were listed as not running and that the gate, asked in turn, lets through; every
  -- other status of the job is as the discovery left it.
  pub cycle_job-schedules :
      (job : RenovateJob) (o : Operator S W) (repos removed : List String) (d : Db) (q : String)
      → (runner.discover job o.world).0 ≡ some repos
      → run_discovery codec
          (runner.now (runner.discover job o.world).1).0
          job.name
          (some repos)
          o.store
        ≡ (ok removed, sound d)
      → status_in job.name q (cycle_job codec runner dispatcher job o).store.db
        ≡ scheduled_if
            (contains q (admitted dispatcher.gate cron (waiting job.status.projects) o.gate_state))
            (status_in job.name q d)
  unfolding cycle_job discovered after_discovery dispatch_candidates
  cycle_job-schedules job o repos removed d q found reconciled =
      let w : W = (runner.now (runner.discover job o.world).1).1 in
      let fn = schedule_project codec runner dispatcher job.name in
      let projects = candidates job.status.projects in
      rw (found, reconciled)
        (ap (λ r. status_in job.name q r.callback_state.0.db)
            (dispatch_projects_lem dispatcher cron fn projects o.gate_state (sound d, w))
          ∙ status_in-run_all job.name q (admitted dispatcher.gate cron projects o.gate_state) d w
          ∙ ap
              (λ (l : List String).
                scheduled_if (contains q (admitted dispatcher.gate cron l o.gate_state))
                  (status_in job.name q d))
              (candidates-waiting job.status.projects))
