-- ===== src/Cycle/Shut.antt =====
-- runScheduledCycle of cmd/main.go behind a Manager whose breaker is open.
use renovate_docker_operator.Prelude.{
  String, ◌≡◌, refl, ap, ◌∙◌, Bool, false, Option, none, some, List, [], ◌∷◌, arith, All,
}
use renovate_docker_operator.Api.{RenovateJob}
use renovate_docker_operator.Resilience.{Source, cron, open_state, Manager}
use renovate_docker_operator.Resilience.Projects.{get-allow_dispatch}
use renovate_docker_operator.Resilience.Gate.{state-allow_dispatch}
use renovate_docker_operator.StateStore.Db.{Codec, Result, ok, err, Session}
use renovate_docker_operator.StateStore.Jobs.{list_renovate_jobs_full}
use renovate_docker_operator.Discovery.{run_discovery}
use renovate_docker_operator.Scheduler.{ask_gate}
use renovate_docker_operator.Scheduler.Dispatch.{gate_after, dispatch_projects_lem}
use renovate_docker_operator.Scheduler.Gated.{
  Clocked, manager_gate, managed, ask_manager, IsUnmarked, open_breaker_dispatches_nothing,
}
use renovate_docker_operator.Cycle.{
  Runner, Operator, candidates, schedule_project, dispatch_candidates, after_discovery, discovered,
  cycle_job, cycle_jobs, after_list, run_scheduled_cycle,
}

-- The breaker is open, and no project has a manual mark.
pub record IsShut (c : Clocked) : Type 0 where
  pub opened : c.manager.state ≡ open_state
  pub unmarked : (project : String) → IsUnmarked c.manager project

All-IsUnmarked :
    (m : Manager) (ps : List String) → ((p : String) → IsUnmarked m p) → All (IsUnmarked m) ps
All-IsUnmarked m [] h = tt
All-IsUnmarked m (p ∷ ps) h = (h p, All-IsUnmarked m ps h)

ask-IsShut :
    (project : String) (source : Source) (c : Clocked)
    → IsShut c
    → IsShut (ask_manager project source c).1
unfolding ask_manager
ask-IsShut project source c h = record {
  opened = state-allow_dispatch (c.readings c.reads) project source c.manager ∙ h.opened;
  unmarked = λ q. ground (
    arith,
    get-allow_dispatch (c.readings c.reads) project source c.manager q,
    h.unmarked project,
    h.unmarked q,
  );
}

gate_after-IsShut :
    (source : Source) (ps : List String) (c : Clocked)
    → IsShut c
    → IsShut (gate_after (some manager_gate) source ps c)
unfolding gate_after ask_gate manager_gate
gate_after-IsShut source [] c h = h
gate_after-IsShut source (p ∷ ps) c h =
    gate_after-IsShut source ps (ask_manager p source c).1 (ask-IsShut p source c h)

-- The discoveries of a cycle alone, one after the other.
module _ {W : Type 0} (codec : Codec) (runner : Runner W) where
  reconciled : RenovateJob → Option (List String) → Session × W → Session × W
  reconciled job none (session, w) = (session, w)
  reconciled job (some repos) (session, w) =
      let (now, w1) = runner.now w in
      ((run_discovery codec now job.name (some repos) session).1, w1)

  unfoldable pub discover_each : List RenovateJob → Session × W → Session × W
  unfolding reconciled
  discover_each [] s = s
  discover_each (job ∷ jobs) (session, w) =
      let (repos, w1) = runner.discover job w in
      discover_each jobs (reconciled job repos (session, w1))

  module _ (metrics : Bool) where
    abbrev Cycle : Type 0
    Cycle = Operator Clocked W

    abbrev kept : Cycle → Session × W
    kept o = (o.store, o.world)

    -- The gate stays shut, and only discovery has changed the store and the executor.
    record Follows (s : Session × W) (o : Cycle) : Type 0 where
      state : kept o ≡ s
      shut : IsShut o.gate_state

    dispatch_candidates-Follows :
        (job : RenovateJob) (o : Cycle)
        → IsShut o.gate_state
        → Follows (kept o) (dispatch_candidates codec runner (managed metrics) job o)
    unfolding dispatch_candidates
    dispatch_candidates-Follows job o h =
        let projects = candidates job.status.projects in
        let fn = schedule_project codec runner (managed metrics) job.name in
        let result =
          dispatch_projects_lem (managed metrics) cron fn projects o.gate_state (kept o) in
        record {
          state =
              (open_breaker_dispatches_nothing metrics projects cron fn o.gate_state (kept o)
                (λ e. ground (arith, e)) h.opened
                (All-IsUnmarked o.gate_state.manager projects h.unmarked)).1;
          shut = rw result (gate_after-IsShut cron projects o.gate_state h);
        }

    discovered-Follows :
        (job : RenovateJob) (repos : Option (List String)) (o : Cycle)
        → IsShut o.gate_state
        → Follows
            (reconciled job repos (kept o))
            (discovered codec runner (managed metrics) job repos o)
    unfolding discovered reconciled after_discovery
    discovered-Follows job none o h = record { state = refl; shut = h }
    discovered-Follows job (some repos) o h =
        go (run_discovery codec (runner.now o.world).0 job.name (some repos) o.store)
      where
        before : Cycle
        before = record o { world = (runner.now o.world).1 }

        go :
            (r : Result (List String) × Session)
            → Follows
                (r.1, (runner.now o.world).1)
                (after_discovery codec runner (managed metrics) job r before)
        go (err e, session) = record { state = refl; shut = h }
        go (ok removed, session) =
            dispatch_candidates-Follows job (record before { store = session }) h

    cycle_jobs-Follows :
        (jobs : List RenovateJob) (o : Cycle)
        → IsShut o.gate_state
        → Follows (discover_each jobs (kept o)) (cycle_jobs codec runner (managed metrics) jobs o)
    unfolding cycle_jobs cycle_job discover_each
    cycle_jobs-Follows [] o h = record { state = refl; shut = h }
    cycle_jobs-Follows (job ∷ jobs) o h =
        let (repos, w) = runner.discover job o.world in
        let turn = discovered-Follows job repos (record o { world = w }) h in
        let after = discovered codec runner (managed metrics) job repos (record o { world = w }) in
        let rest = cycle_jobs-Follows jobs after turn.shut in
        record { state = rest.state ∙ ap (discover_each jobs) turn.state; shut = rest.shut }

    -- While the breaker is open and no project is marked, a cron cycle changes the store and the
    -- executor only by the discoveries of the listed jobs, and leaves the breaker open.
    pub run_scheduled_cycle-IsShut :
        (o : Operator Clocked W) (jobs : List RenovateJob) (session : Session)
        → IsShut o.gate_state
        → list_renovate_jobs_full codec o.store ≡ (ok jobs, session)
        → let after = run_scheduled_cycle codec runner (managed metrics) false o in
          ((after.store, after.world) ≡ discover_each jobs (session, o.world))
          × IsShut after.gate_state
    unfolding run_scheduled_cycle after_list
    run_scheduled_cycle-IsShut o jobs session h listed =
        let follows = cycle_jobs-Follows jobs (record o { store = session }) h in
        rw listed (follows.state, follows.shut)
