-- ===== src/Executor/Orphans.antt =====
-- reconcileOrphans, the choice of events, Stop and the calls on single containers of
-- internal/executor/docker.go.
pub mod Slots
use renovate_docker_operator.Prelude.{
  ℕ, ◌-◌, String, Bool, true, false, not, ◌&&◌, ◌||◌, Option, none, some, List, [], ◌∷◌, ltb,
  str_eq, if◌then◌else◌, any, Dict, lookup, put, delete,
}
use renovate_docker_operator.Resilience.{Source}
use renovate_docker_operator.Api.{running, only_status}
use renovate_docker_operator.Executor.State.{Labels, World, Executor}
use renovate_docker_operator.Executor.Exit.{handle_container_exit}

-- An entry of ContainerList.
pub record Summary : Type 0 where
  pub id : String
  pub state : String
  pub labels : Labels

-- What the Docker client does for this file alone. ContainerList has the filter of the executor's
-- label.
pub record Daemon (W : Type 0) : Type 0 where
  pub container_list : W → Option (List Summary) × W
  pub container_kill : String → W → W
  pub container_stop : String → W → Bool × W
  pub close : W → W

abbrev pub is_exit_action : String → Bool
is_exit_action action = str_eq action "die" || str_eq action "died"

-- Whether listenEvents handles an event: with attributes, they have to hold the executor's label.
abbrev pub is_our_exit : (action : String) (has_attributes has_label : Bool) → Bool
is_our_exit action has_attributes has_label =
    is_exit_action action && (not has_attributes || has_label)

abbrev pub is_stopped : Summary → Bool
is_stopped c = str_eq c.state "exited" || str_eq c.state "dead"

-- `tracked`, whose keys are the containers of the slots.
abbrev pub is_tracked : Dict String → String → Bool
is_tracked slots container = any (λ e. str_eq e.1 container) slots

module _ {W : Type 0} (rt : World W) (daemon : Daemon W) where
  -- The update of the store, whose error is only logged.
  unfoldable pub adopt : Summary → Executor W → Executor W
  adopt c e =
      let e1 = record e { running = put c.labels.project c.id e.running } in
      if str_eq c.labels.project ""
      then e
      else if str_eq c.labels.job_name ""
      then e1
      else record e1 {
        world =
            (rt.update_project_status c.labels.project c.labels.job_name (only_status running)
              e.world).1;
      }

  -- An orphan that runs: `none` for a start that is not known.
  unfoldable pub handle_running : Summary → Option ℕ → Executor W → Executor W
  unfolding adopt
  handle_running c none e = e
  handle_running c (some started_at) e =
      let (now, w) = rt.now e.world in
      if ltb e.settings.job_timeout (now - started_at)
      then record e { world = daemon.container_kill c.id w }
      else adopt c (record e { world = w })

  handle_orphan : Summary → Executor W → Executor W
  unfolding handle_running
  handle_orphan c e =
      if str_eq c.state "running"
      then handle_running c c.labels.started_at e
      else if is_stopped c
      then handle_container_exit rt c.id e
      else e

  -- The body of the loop: a tracked container that has stopped is an exit that was missed.
  unfoldable pub reconcile_one : (slots : Dict String) → Summary → Executor W → Executor W
  unfolding handle_orphan
  reconcile_one slots c e =
      if is_tracked slots c.id
      then if is_stopped c then handle_container_exit rt c.id e else e
      else handle_orphan c e

  unfoldable pub reconcile_listed : (slots : Dict String) → List Summary → Executor W → Executor W
  unfolding reconcile_one
  reconcile_listed slots [] e = e
  reconcile_listed slots (c ∷ containers) e =
      reconcile_listed slots containers (reconcile_one slots c e)

  after_list : Option (List Summary) → Executor W → Bool × Executor W
  unfolding reconcile_listed
  after_list none e = (false, e)
  after_list (some containers) e = (true, reconcile_listed e.running containers e)

  -- `false` is an error. The slots are copied before the loop.
  unfoldable pub reconcile_orphans : Executor W → Bool × Executor W
  unfolding after_list
  reconcile_orphans e =
      let (containers, w) = daemon.container_list e.world in
      after_list containers (record e { world = w })

  -- A container that does not stop in its grace period is killed.
  stop_one : String → W → W
  stop_one container w =
      let (stopped, w1) = daemon.container_stop container w in
      if stopped then w1 else daemon.container_kill container w1

  unfoldable pub stop_all : Dict String → Executor W → Executor W
  unfolding stop_one
  stop_all [] e = e
  stop_all ((project, container) ∷ slots) e =
      stop_all slots
        (record e { running = delete project e.running; world = stop_one container e.world })

  unfoldable pub stop : Executor W → Executor W
  unfolding stop_all
  stop e = let e1 = stop_all e.running e in record e1 { world = daemon.close e1.world }

  -- `false` is an error; a project without a slot is one.
  unfoldable pub stop_container : String → Executor W → Bool × Executor W
  stop_container project e = elim (lookup project e.running) [
    | none ↦ (false, e)
    | some container ↦
        let (stopped, w) = daemon.container_stop container e.world in
        (stopped, record e { world = w })
  ]

unfoldable pub get_running_container_id : {W : Type 0} → String → Executor W → Option String
get_running_container_id project e = lookup project e.running

unfoldable pub set_project_source : {W : Type 0} → String → Source → Executor W → Executor W
set_project_source project source e = record e { sources = put project source e.sources }
