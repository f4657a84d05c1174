-- ===== src/Server/State.antt =====
-- What the handlers of internal/server/server.go read and change, and their answers. A request comes
-- as its parts, with the outcome of decoding its body.
use renovate_docker_operator.Prelude.{ℕ, String, Bool, Option, List, Dict}
use renovate_docker_operator.Api.{ProjectStatus, RenovateExecutionOptions}
use renovate_docker_operator.Resilience.{State, Manager, Snapshot, ResetSummary}
use renovate_docker_operator.StateStore.Db.{Session}

-- The gauges of the metrics recorder that the handlers set.
pub record Gauges : Type 0 where
  pub queue_depth : ℕ
  pub breaker_state : Option State

-- `resilience` and `metrics` are `none` until they are set; `running` are the executor's slots and
-- `discovery_id` its discoveries.
pub record Server : Type 0 where
  pub store : Session
  pub resilience : Option Manager
  pub metrics : Option Gauges
  pub running : Dict String
  pub discovery_id : Dict String

-- json.NewDecoder on a body that http.MaxBytesReader limits.
pub data Decoded (P : Type 0) : Type 0 where
  too_large invalid : Decoded P
  decoded : P → Decoded P

pub record JobActionRequest : Type 0 where
  pub renovate_job : String
  pub project : String

pub record ExecutionOptionsRequest : Type 0 where
  pub renovate_job : String
  pub debug : Bool
  pub webhook_enabled : Option Bool

-- `env_override` is the value of RENOVATE_LOG_LEVEL.
pub record DebugModeInfo : Type 0 where
  pub enabled : Bool
  pub env_override : Option String

pub record RenovateJobInfo : Type 0 where
  pub name : String
  pub cron_expression : String
  pub next_schedule : ℕ
  pub projects : List ProjectStatus
  pub platform : String
  pub platform_endpoint : String
  pub execution_options : Option RenovateExecutionOptions
  pub debug_mode : DebugModeInfo
  pub webhook_enabled : Bool
  pub discovery_status : String
  pub discovery_started : Option ℕ
  pub discovery_error : String

-- A server-sent event: a line of a log, the end of the stream, or the error event.
pub data Event : Type 0 where
  line_event : List ℕ → Event
  done_event error_event : Event

pub data Answer : Type 0 where
  fields : List (String × String) → Answer
  jobs : List RenovateJobInfo → Answer
  breaker : Snapshot → Answer
  summary : ResetSummary → Answer
  events : List Event → Answer
  metrics_text no_content : Answer

pub record Response : Type 0 where
  pub status : ℕ
  pub answer : Answer
