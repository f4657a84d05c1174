-- ===== src/Executor/State.antt =====
-- The state of DockerExecutor in internal/executor/docker.go, and the interfaces that it calls: the
-- Docker client, the job store, the log parser and the clock, each over one state of the world.
-- The executor's maps are guarded by a mutex; an operation here runs without another goroutine
-- between its critical sections.
use renovate_docker_operator.Prelude.{ℕ, String, Bool, Option, List, ℤ, Dict}
use renovate_docker_operator.Resilience.{Source, Outcome}
use renovate_docker_operator.Api.{
  RenovateJob, ProjectStatus, RenovateProjectStatus, RenovateStatusUpdate, PrActivity, LogIssues,
}

pub data PullPolicy : Type 0 where
  always if_not_present never unknown_policy : PullPolicy

-- Config after the defaults of New; `reporter` and `recorder` say whether the hooks are set.
pub record Settings : Type 0 where
  pub image : String
  pub network : String
  pub extra_hosts : List String
  pub cache_volume : String
  pub containerbase_cache_volume : String
  pub parallelism : ℕ
  pub job_timeout : ℕ
  pub image_pull_policy : PullPolicy
  pub image_cache_ttl : ℕ
  pub failure_min_runtime : ℕ
  pub reporter : Bool
  pub recorder : Bool

-- The labels that the executor writes and reads; "" is an absent label. `started_at` is `none` where
-- the label is absent or not a time.
pub record Labels : Type 0 where
  pub project : String
  pub job_name : String
  pub kind : String
  pub started_at : Option ℕ

pub record HostConfig : Type 0 where
  pub binds : List (String × String)
  pub network_mode : String
  pub extra_hosts : List String
  pub log_type : String

-- container.Config with its host config. The container's name, printed from the project and the
-- clock, is left to the client.
pub record Container : Type 0 where
  pub image : String
  pub cmd : List String
  pub env : List (String × String)
  pub labels : Labels
  pub user : String
  pub host : HostConfig

-- What ContainerInspect returns: `exit_code` is `none` where State is nil.
pub record Info : Type 0 where
  pub exit_code : Option ℤ
  pub labels : Labels

-- The parts of parser.LogParseResult that an exit stores.
pub record ParseResult : Type 0 where
  pub renovate_result_status : Option String
  pub pr_activity : Option PrActivity
  pub log_issues : Option LogIssues

-- Each call gives its answer, `none` or `false` for an error, and the world after it.
pub record World (W : Type 0) : Type 0 where
  pub now : W → ℕ × W
  pub environ : List (String × String)
  pub image_inspect : String → W → Bool × W
  pub image_pull : String → W → Bool × W
  pub container_create : Container → W → Option String × W
  pub container_start : String → W → Bool × W
  pub container_remove : String → W → W
  pub container_inspect : String → W → Option Info × W
  pub container_logs : String → W → Option (List ℕ) × W
  pub list_jobs : W → Option (List RenovateJob) × W
  pub projects_by_status : String → RenovateProjectStatus → W → Option (List ProjectStatus) × W
  pub update_project_status : String → String → RenovateStatusUpdate → W → Bool × W
  pub store_project_logs : String → String → List ℕ → W → Bool × W
  pub parse_logs : List ℕ → ParseResult
  pub print_duration : ℕ → String

-- One call of the resilience reporter, or of the metrics recorder.
pub record Report : Type 0 where
  pub project : String
  pub source : Source
  pub outcome : Outcome
  pub duration : ℕ
  pub exit_code : ℤ

pub record Observation : Type 0 where
  pub project : String
  pub outcome : Outcome
  pub duration : ℕ

-- `running` maps a project to its container, "" while the slot is only reserved.
pub record Executor (W : Type 0) : Type 0 where
  pub settings : Settings
  pub running : Dict String
  pub sources : Dict Source
  pub image_cache : Dict ℕ
  pub world : W
  pub reports : List Report
  pub observations : List Observation
