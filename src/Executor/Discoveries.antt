-- ===== src/Executor/Discoveries.antt =====
-- The discovery containers of internal/executor/docker.go: DispatchDiscovery, and
-- runDiscoveryContainer, which also tells the map of discoveries the container. The two agree but
-- for that.
pub mod Cleaned
use renovate_docker_operator.Prelude.{
  ℕ, ◌-◌, String, Bool, true, false, Option, none, some, List, [], ◌∷◌, ◌++◌, ℤ, pos, str_eq,
  if◌then◌else◌, Dict, lookup, put,
}
use renovate_docker_operator.Resilience.{cron, Outcome, success, discovery_project}
use renovate_docker_operator.Api.{RenovateJob}
use renovate_docker_operator.Executor.State.{
  Settings, Container, World, Report, Observation, Executor,
}
use renovate_docker_operator.Executor.Env.{build_env_vars}
use renovate_docker_operator.Executor.Dispatch.{child_host_config, pull_image}
use renovate_docker_operator.Executor.Exit.{is_zero, classify_outcome}

abbrev pub discovery_command : String
discovery_command =
    "BASE_DIR=\"${RENOVATE_BASE_DIR:-/tmp}\"; if renovate --autodiscover --write-discovered-repos \"$BASE_DIR/repos.json\" >> \"$BASE_DIR/logs.json\" 2>&1; then cat \"$BASE_DIR/repos.json\"; else status=$?; cat \"$BASE_DIR/logs.json\"; exit \"$status\"; fi"

-- How the select over ContainerWait and the context ends: an error, the error channel without one,
-- an exit code, or a context that is done, also where ContainerWait gives its error for that reason.
pub data Waited : Type 0 where
  wait_failed wait_ended context_done : Waited
  exited : ℤ → Waited

-- The executor, and the discoveries by job.
pub record Discoverer (W : Type 0) : Type 0 where
  pub executor : Executor W
  pub discovery_id : Dict String

-- The repositories, or `none` for an error.
abbrev pub Found : Type 0 → Type 0
Found W = Option (List String) × Discoverer W

-- `remove_cancelled` is ContainerRemove with a context that is done; its error is dropped, so it may
-- leave the container.
module _ {W : Type 0} (rt : World W) (container_wait : String → W → Waited × W)
    (remove_cancelled : String → W → W) (unmarshal : List ℕ → Option (List String)) where
  pub discovery_container : Settings → RenovateJob → ℕ → Container
  unfolding child_host_config
  discovery_container s job now = record {
    image = s.image;
    cmd = "/bin/sh" ∷ "-c" ∷ discovery_command ∷ [];
    env = build_env_vars rt.environ job true;
    labels = record {
      project = "";
      job_name = job.name;
      kind = "discovery";
      started_at = some now;
    };
    user = "12021:0";
    host = child_host_config s;
  }

  abbrev with_executor : Executor W → Discoverer W → Discoverer W
  with_executor e d = record d { executor = e }

  -- The calls of the reporter and of the recorder, where they are set.
  unfoldable pub report_discovery : Outcome → ℕ → ℤ → Executor W → Executor W
  report_discovery outcome runtime code e = record e {
    reports =
        if e.settings.reporter
        then e.reports
          ++ record {
            project = discovery_project;
            source = cron;
            outcome = outcome;
            duration = runtime;
            exit_code = code;
          }
            ∷ []
        else e.reports;
    observations =
        if e.settings.recorder
        then e.observations
          ++ record { project = discovery_project; outcome = outcome; duration = runtime } ∷ []
        else e.observations;
  }

  abbrev remove_container : String → Executor W → Executor W
  remove_container container e = record e { world = rt.container_remove container e.world }

  parse_output : Option (List ℕ) → Option (List String)
  parse_output none = none
  parse_output (some output) = unmarshal output

  -- The repositories are read from the logs before the container is removed.
  read_repos : String → Executor W → Option (List String) × Executor W
  unfolding parse_output
  read_repos container e =
      let (output, w) = rt.container_logs container e.world in
      (parse_output output, remove_container container (record e { world = w }))

  after_exit : String → ℕ → ℤ → Executor W → Option (List String) × Executor W
  unfolding report_discovery read_repos classify_outcome
  after_exit container started code e =
      let (now, w) = rt.now e.world in
      let e1 = record e { world = w } in
      let failed =
        report_discovery (classify_outcome e.settings code (now - started)) (now - started) code
          e1 in
      if is_zero code
      then read_repos container (report_discovery success (now - started) (pos 0) e1)
      else (
        none,
        remove_container container
            (record failed { world = (rt.container_logs container failed.world).1 }),
      )

  unfoldable pub after_wait : String → ℕ → Waited → Executor W → Option (List String) × Executor W
  unfolding after_exit read_repos
  after_wait container started wait_failed e = (none, remove_container container e)
  after_wait container started context_done e =
      (none, record e { world = remove_cancelled container e.world })
  after_wait container started wait_ended e = read_repos container e
  after_wait container started (exited code) e = after_exit container started code e

  -- `register` is what happens to the map of discoveries once the container runs.
  module _ (register : String → Dict String → Dict String) where
    wait_discovery : String → ℕ → Discoverer W → Found W
    unfolding after_wait
    wait_discovery container started d =
        let (waited, w) = container_wait container d.executor.world in
        let (repos, e) = after_wait container started waited (record d.executor { world = w }) in
        (repos, record { executor = e; discovery_id = register container d.discovery_id })

    start_discovery : Option String → ℕ → Discoverer W → Found W
    unfolding wait_discovery
    start_discovery none started d = (none, d)
    start_discovery (some container) started d =
        let (ok, w) = rt.container_start container d.executor.world in
        let e = record d.executor { world = w } in
        if ok
        then wait_discovery container started (with_executor e d)
        else (none, with_executor (remove_container container e) d)

    create_discovery : RenovateJob → Discoverer W → Found W
    unfolding start_discovery discovery_container
    create_discovery job d =
        let (now, w) = rt.now d.executor.world in
        let (created, w1) =
          rt.container_create (discovery_container d.executor.settings job now) w in
        start_discovery created now (with_executor (record d.executor { world = w1 }) d)

    run_discovery_with : RenovateJob → Discoverer W → Found W
    unfolding create_discovery
    run_discovery_with job d =
        let (pulled, e) = pull_image rt d.executor in
        if pulled then create_discovery job (with_executor e d) else (none, with_executor e d)

  unfoldable pub dispatch_discovery : RenovateJob → Discoverer W → Found W
  unfolding run_discovery_with
  dispatch_discovery job d = run_discovery_with (λ container ids. ids) job d

  unfoldable pub run_discovery_container : RenovateJob → Discoverer W → Found W
  unfolding run_discovery_with
  run_discovery_container job d =
      run_discovery_with (λ container ids. put job.name container ids) job d

-- `none` also while the slot is only reserved.
unfoldable pub get_running_discovery_container_id :
    {W : Type 0} → String → Discoverer W → Option String
get_running_discovery_container_id job d = elim (lookup job d.discovery_id) [
  | none ↦ none
  | some container ↦ if str_eq container "" then none else some container
]
