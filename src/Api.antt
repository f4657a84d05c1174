-- ===== src/Api.antt =====
-- internal/api/types.go and the status records of internal/statestore/interface.go: the data that
-- the components exchange. A pointer that may be nil is an Option; an instant is a number.
use renovate_docker_operator.Prelude.{ℕ, String, Bool, Option, List, ℤ}

pub record EnvVar : Type 0 where
  pub name : String
  pub value : String

pub record RenovateProvider : Type 0 where
  pub name : String
  pub endpoint : String

-- Of the authentication and sync records the program reads only `Enabled`.
pub record RenovateWebhook : Type 0 where
  pub enabled : Bool
  pub authentication : Option Bool
  pub sync : Option Bool

pub record RenovateJobSpec : Type 0 where
  pub schedule : String
  pub image : String
  pub provider : Option RenovateProvider
  pub discovery_filters : List String
  pub discover_topics : List String
  pub skip_forks : Bool
  pub skip_pending_deletion : Bool
  pub secret_ref : String
  pub extra_env : List EnvVar
  pub parallelism : ℤ
  pub webhook : Option RenovateWebhook
  pub allowed_groups : List String

pub record RenovateExecutionOptions : Type 0 where
  pub debug : Bool

pub data RenovateProjectStatus : Type 0 where
  scheduled running completed failed cancelled : RenovateProjectStatus

pub data PrAction : Type 0 where
  automerged created updated needs_approval unchanged : PrAction

-- `action` is `none` for the empty string, which a detail has until a message sets it.
pub record PrDetail : Type 0 where
  pub branch : String
  pub number : ℤ
  pub title : String
  pub action : Option PrAction

pub record PrActivity : Type 0 where
  pub automerged : ℕ
  pub created : ℕ
  pub updated : ℕ
  pub needs_approval : ℕ
  pub unchanged : ℕ
  pub prs : List PrDetail
  pub truncated : Bool

-- A message is its bytes: the log parser may cut it inside a character.
pub record LogIssue : Type 0 where
  pub level : ℤ
  pub message : List ℕ

pub record LogIssues : Type 0 where
  pub warn_count : ℕ
  pub error_count : ℕ
  pub issues : List LogIssue
  pub truncated : Bool

pub record ProjectStatus : Type 0 where
  pub name : String
  pub last_run : ℕ
  pub duration : Option String
  pub status : RenovateProjectStatus
  pub priority : ℤ
  pub renovate_result_status : Option String
  pub pr_activity : Option PrActivity
  pub log_issues : Option LogIssues

pub record RenovateJobStatus : Type 0 where
  pub projects : List ProjectStatus
  pub execution_options : Option RenovateExecutionOptions

pub record RenovateJob : Type 0 where
  pub name : String
  pub spec : RenovateJobSpec
  pub status : RenovateJobStatus

-- RenovateStatusUpdate of the state store: the columns that an update writes.
pub record RenovateStatusUpdate : Type 0 where
  pub status : RenovateProjectStatus
  pub duration : Option String
  pub renovate_result_status : Option String
  pub pr_activity : Option PrActivity
  pub log_issues : Option LogIssues

-- An update that gives a status alone.
abbrev pub only_status : RenovateProjectStatus → RenovateStatusUpdate
only_status status = record {
  status = status;
  duration = Option.none;
  renovate_result_status = Option.none;
  pr_activity = Option.none;
  log_issues = Option.none;
}
