-- ===== src/Executor/Tests.antt =====
-- The executor in a small world, and the theorems about it at concrete inputs.
mod Containers
use renovate_docker_operator.Prelude.{
  ℕ, suc, ◌≤◌, ◌≡◌, ◌⊎◌, refl, String, true, false, none, some, [], ◌∷◌, pos, str_eq, length,
  lookup, put,
}
use renovate_docker_operator.Resilience.{cron, webhook}
use renovate_docker_operator.Api.{RenovateJob, ProjectStatus, scheduled}
use renovate_docker_operator.Executor.State.{Settings, if_not_present, Info, World, Executor}
use renovate_docker_operator.Executor.Env.{defaults, build_env_vars}
use renovate_docker_operator.Executor.Env.Precedence.{
  last_extra, protected, last_passed, ◌<+◌, build_env_vars_precedence,
}
use renovate_docker_operator.Executor.Dispatch.{
  has_key, pull_image, dispatch_project, reserve, dispatch_one, dispatch_scheduled, dispatch_job,
  dispatch_jobs, do_dispatch,
}
use renovate_docker_operator.Executor.Dispatch.Slots.{
  Turned, dispatch_one_outcome, do_dispatch_within_limit, do_dispatch_keeps,
  do_dispatch_attributes_to_cron,
}
use renovate_docker_operator.Executor.Exit.{
  classify_outcome, project_of, source_or_cron, runtime_since,
}
use renovate_docker_operator.Executor.Exit.Effects.{
  handle_container_exit-slots, stale_exit_frees_slot,
}

abbrev pub settings : Settings
settings = record {
  image = "renovate/renovate:latest";
  network = "bridge";
  extra_hosts = [];
  cache_volume = "renovate-cache";
  containerbase_cache_volume = "renovate-containerbase-cache";
  parallelism = 2;
  job_timeout = 1800;
  image_pull_policy = if_not_present;
  image_cache_ttl = 0;
  failure_min_runtime = 30;
  reporter = true;
  recorder = true;
}

abbrev pub job : RenovateJob
job = record {
  name = "default";
  spec = record {
    schedule = "0 */4 * * *";
    image = "renovate/renovate:latest";
    provider = none;
    discovery_filters = [];
    discover_topics = [];
    skip_forks = false;
    skip_pending_deletion = false;
    secret_ref = "";
    extra_env = record { name = "RENOVATE_BASE_DIR"; value = "/data" } ∷ [];
    parallelism = pos 2;
    webhook = none;
    allowed_groups = [];
  };
  status = record { projects = []; execution_options = none };
}

abbrev project : String → ℕ → ProjectStatus
project name priority = record {
  name = name;
  last_run = 0;
  duration = none;
  status = scheduled;
  priority = pos priority;
  renovate_result_status = none;
  pr_activity = none;
  log_issues = none;
}

abbrev pub exited : Info
exited = record {
  exit_code = some (pos 1);
  labels = record { project = "a"; job_name = "default"; kind = "executor"; started_at = some 3 };
}

-- A world that only counts the readings of its clock; every call succeeds.
abbrev pub world : World ℕ
world = record {
  now = λ w. (w, suc w);
  environ = ("RENOVATE_BASE_DIR", "/other") ∷ ("RENOVATE_TOKEN", "t") ∷ [];
  image_inspect = λ i w. (true, w);
  image_pull = λ i w. (true, w);
  container_create = λ c w. (some "new", w);
  container_start = λ c w. (true, w);
  container_remove = λ c w. w;
  container_inspect = λ c w. (some exited, w);
  container_logs = λ c w. (none, w);
  list_jobs = λ w. (some (job ∷ []), w);
  projects_by_status = λ j s w. (some (project "low" 1 ∷ project "a" 5 ∷ project "high" 9 ∷ []), w);
  update_project_status = λ p j u w. (true, w);
  store_project_logs = λ p j l w. (true, w);
  parse_logs = λ l. record { renovate_result_status = none; pr_activity = none; log_issues = none };
  print_duration = λ d. "";
}

-- One slot is taken, and a webhook has asked for another project.
abbrev pub busy : Executor ℕ
busy = record {
  settings = settings;
  running = ("a", "old") ∷ [];
  sources = ("a", webhook) ∷ ("high", webhook) ∷ [];
  image_cache = [];
  world = 10;
  reports = [];
  observations = [];
}

-- The project of the highest priority gets the free slot, the next one in line has a slot, and then
-- the limit is met.
dispatches_by_priority : (do_dispatch world busy).running ≡ ("a", "old") ∷ ("high", "new") ∷ []
unfolding do_dispatch dispatch_jobs dispatch_job dispatch_scheduled dispatch_one dispatch_project
    pull_image reserve has_key lookup put
dispatches_by_priority = refl

do_dispatch_within_limit_example :
    (length (do_dispatch world busy).running ≤ 2) ⊎ (length (do_dispatch world busy).running ≤ 1)
do_dispatch_within_limit_example = do_dispatch_within_limit world busy

a_holds : lookup "a" busy.running ≡ some "old"
unfolding lookup
a_holds = refl

high_free : lookup "high" busy.running ≡ none
unfolding lookup
high_free = refl

do_dispatch_keeps_example : lookup "a" (do_dispatch world busy).running ≡ some "old"
do_dispatch_keeps_example = do_dispatch_keeps world busy "a" "old" a_holds

dispatch_one_outcome_example :
    Turned world job "high" 1 busy (dispatch_one world job "high" (1, busy))
dispatch_one_outcome_example = dispatch_one_outcome world job "high" 1 busy high_free

build_env_vars_precedence_example :
    lookup "RENOVATE_BASE_DIR" (build_env_vars world.environ job false) ≡ (
      last_extra "RENOVATE_BASE_DIR" job.spec.extra_env
      <+ protected "RENOVATE_BASE_DIR"
      <+ last_passed "RENOVATE_BASE_DIR" world.environ
      <+ lookup "RENOVATE_BASE_DIR" (defaults job false))
build_env_vars_precedence_example =
    build_env_vars_precedence world.environ job false "RENOVATE_BASE_DIR"

stray_untracked : str_eq (project_of "stray" busy.running) "" ≡ true
unfolding project_of
stray_untracked = refl
