-- ===== src/Server.antt =====
-- internal/server: the handlers of the HTTP API over the store, the resilience manager and the
-- discovery agent. Routing, headers and the encoding of an answer are left to net/http.
pub mod State
pub mod Listing
pub mod Logs
pub mod Breaker
pub mod Debug
pub mod RunAll
mod Tests
use renovate_docker_operator.Prelude.{
  ℕ, String, Bool, true, false, not, ◌&&◌, ◌||◌, Option, none, some, List, [], ◌∷◌, str_eq,
  if◌then◌else◌, map, lookup,
}
use renovate_docker_operator.Api.{
  RenovateJob, RenovateProvider, RenovateWebhook, RenovateExecutionOptions, ProjectStatus,
  scheduled, running, only_status,
}
use renovate_docker_operator.Resilience.{
  Manager, Snapshot, ResetSummary, reset, snapshot, mark_manual,
}
use renovate_docker_operator.StateStore.Db.{Codec, StoreError, Result, ok, err, Session, Done}
use renovate_docker_operator.StateStore.Projects.{
  same_status, update_project_status, update_project_status_batched, cancel_project_job,
}
use renovate_docker_operator.StateStore.Settings.{DiscoveryStatus, get_discovery_status}
use renovate_docker_operator.StateStore.Jobs.{
  list_renovate_jobs_full, get_renovate_job, update_execution_options, update_webhook_enabled,
}
use renovate_docker_operator.Discovery.{
  Agent, Started, discovery_started, already_running, store_error, run_discovery_async,
}
use renovate_docker_operator.Server.State.{
  Gauges, Server, Decoded, too_large, invalid, decoded, JobActionRequest, ExecutionOptionsRequest,
  DebugModeInfo, RenovateJobInfo, fields, jobs, breaker, summary, metrics_text, no_content,
  Response,
}

abbrev pub json : ℕ → String → String → Response
json status key value = record { status = status; answer = fields ((key, value) ∷ []) }

abbrev pub error_json : ℕ → String → Response
error_json status message = json status "error" message

-- What follows on a decoded body.
abbrev pub with_body :
    {P : Type 0} → Decoded P → (P → Server → Response × Server) → Server → Response × Server
with_body too_large handle s = (error_json 413 "request body too large", s)
with_body invalid handle s = (error_json 400 "invalid request body", s)
with_body (decoded params) handle s = handle params s

-- The answer to a store's method that gives an error or not.
abbrev pub stored : Response → Response → Result Done × Session → Server → Response × Server
stored done failed (ok u, session) s = (done, record s { store = session })
stored done failed (err e, session) s = (failed, record s { store = session })

-- Whether csrfMiddleware lets a request pass. `parsed` is the host of the Origin, `none` where
-- url.Parse fails.
unfoldable pub passes_csrf :
    (method origin : String) (parsed : Option String) (host : String) → Bool
passes_csrf method origin parsed host =
    not (str_eq method "POST" || (str_eq method "PUT" || str_eq method "DELETE"))
    || (str_eq origin "" || elim parsed [ none ↦ false | some h ↦ str_eq h host ])

abbrev debug_of : Option RenovateExecutionOptions → Bool
debug_of none = true
debug_of (some options) = options.debug

-- `level` is the environment's RENOVATE_LOG_LEVEL.
unfoldable pub build_debug_mode_info :
    (level : String) → Option RenovateExecutionOptions → DebugModeInfo
build_debug_mode_info level options =
    if str_eq level ""
    then record { enabled = debug_of options; env_override = none }
    else record { enabled = str_eq level "debug"; env_override = some level }

-- The projects that the batch of runRenovateForAllProjects is for.
abbrev pub is_idle : ProjectStatus → Bool
is_idle p = not (same_status p.status running) && not (same_status p.status scheduled)

module _ (codec : Codec) where
  -- `now` is the clock.
  module _ (now : ℕ) where
    run_project : JobActionRequest → Server → Response × Server
    run_project params s =
        if str_eq params.renovate_job "" || str_eq params.project ""
        then (error_json 400 "missing required parameters", s)
        else stored (json 200 "message" "renovate job triggered")
            (error_json 500 "failed to schedule project")
            (update_project_status codec now params.project params.renovate_job
              (only_status scheduled) s.store)
            s

    unfoldable pub run_renovate_for_project : Decoded JobActionRequest → Server → Response × Server
    unfolding run_project
    run_renovate_for_project body s = with_body body run_project s

    -- The body is the job's name.
    run_all : String → Server → Response × Server
    run_all job s =
        if str_eq job ""
        then (error_json 400 "missing renovateJob", s)
        else stored (json 200 "message" "all projects triggered")
            (error_json 500 "failed to trigger all projects")
            (update_project_status_batched codec now is_idle job (only_status scheduled) s.store) s

    unfoldable pub run_renovate_for_all_projects : Decoded String → Server → Response × Server
    unfolding run_all
    run_renovate_for_all_projects body s = with_body body run_all s

    agent_of : Server → Agent
    agent_of s = record { store = s.store; discovery_id = s.discovery_id }

    discovery_answer : Started → Response
    discovery_answer discovery_started = json 202 "status" "started"
    discovery_answer already_running = error_json 409 "discovery is already running"
    discovery_answer (store_error e) = error_json 500 "failed to start discovery"

    start_discovery : Result RenovateJob × Session → Server → Response × Server
    unfolding agent_of discovery_answer
    start_discovery (err e, session) s =
        (error_json 404 "job not found", record s { store = session })
    start_discovery (ok job, session) s =
        let (started, agent) =
          run_discovery_async codec now job.name (agent_of (record s { store = session })) in
        (
          discovery_answer started,
          record s { store = agent.store; discovery_id = agent.discovery_id },
        )

    discover : String → Server → Response × Server
    unfolding start_discovery
    discover job s =
        if str_eq job ""
        then (error_json 400 "missing renovateJob", s)
        else start_discovery (get_renovate_job codec job s.store) s

    unfoldable pub run_discovery : Decoded String → Server → Response × Server
    unfolding discover
    run_discovery body s = with_body body discover s

    -- An error of one project is only logged.
    unfoldable pub reschedule : (job : String) → List String → Session → Session
    reschedule job [] session = session
    reschedule job (project ∷ projects) session =
        reschedule job projects
          (update_project_status codec now project job (only_status scheduled) session).1

    -- The replayed projects go to the first job.
    unfoldable pub replay : List String → Result (List RenovateJob) × Session → Session
    unfolding reschedule
    replay projects (err e, session) = session
    replay projects (ok [], session) = session
    replay projects (ok (job ∷ others), session) = reschedule job.name projects session

    abbrev emptied : Option Gauges → Option Gauges
    emptied none = none
    emptied (some g) = some (record g { queue_depth = 0 })

    reset_manager : Option Manager → Server → Response × Server
    unfolding reset replay
    reset_manager none s = (error_json 501 "resilience not configured", s)
    reset_manager (some m) s =
        let (done, m1) = reset now m in
        (
          record { status = 200; answer = summary done },
          record s {
            resilience = some m1;
            metrics = emptied s.metrics;
            store = replay done.replayed_projects (list_renovate_jobs_full codec s.store);
          },
        )

    unfoldable pub reset_breaker : Server → Response × Server
    unfolding reset_manager
    reset_breaker s = reset_manager s.resilience s

  -- Without the route's {project}, which is never empty, the answer is 400.
  bypass_manager : String → Option Manager → Server → Response × Server
  bypass_manager project none s = (error_json 501 "resilience not configured", s)
  bypass_manager project (some m) s =
      if str_eq project "" then (error_json 400 "missing project", s) else (
        record { status = 204; answer = no_content },
        record s { resilience = some (mark_manual project m) },
      )

  unfoldable pub bypass_breaker : String → Server → Response × Server
  unfolding bypass_manager
  bypass_breaker project s = bypass_manager project s.resilience s

cancel_project : JobActionRequest → Server → Response × Server
cancel_project params s =
    if str_eq params.renovate_job "" || str_eq params.project ""
    then (error_json 400 "missing required parameters", s)
    else stored (json 200 "message" "project cancelled") (error_json 500 "failed to cancel project")
        (cancel_project_job params.project params.renovate_job s.store) s

unfoldable pub cancel_renovate_for_project : Decoded JobActionRequest → Server → Response × Server
unfolding cancel_project
cancel_renovate_for_project body s = with_body body cancel_project s

-- The second write, where the request has one.
then_webhook : Option Bool → String → Result Done × Session → Server → Response × Server
then_webhook enabled job (err e, session) s =
    (error_json 500 "failed to update", record s { store = session })
then_webhook none job (ok u, session) s =
    (json 200 "message" "execution options updated", record s { store = session })
then_webhook (some enabled) job (ok u, session) s =
    stored (json 200 "message" "execution options updated")
      (error_json 500 "failed to update webhook_enabled")
      (update_webhook_enabled job enabled session) s

change_options : ExecutionOptionsRequest → Server → Response × Server
unfolding then_webhook
change_options params s =
    if str_eq params.renovate_job ""
    then (error_json 400 "missing renovateJob", s)
    else then_webhook params.webhook_enabled params.renovate_job
        (update_execution_options params.renovate_job (some (record { debug = params.debug }))
          s.store)
        s

unfoldable pub set_execution_options : Decoded ExecutionOptionsRequest → Server → Response × Server
unfolding change_options
set_execution_options body s = with_body body change_options s

breaker_of : (now : ℕ) → Option Manager → Server → Response × Server
unfolding snapshot
breaker_of now none s = (error_json 501 "resilience not configured", s)
breaker_of now (some m) s =
    let (snap, m1) = snapshot now m in
    (record { status = 200; answer = breaker snap }, record s { resilience = some m1 })

unfoldable pub get_breaker_state : (now : ℕ) → Server → Response × Server
unfolding breaker_of
get_breaker_state now s = breaker_of now s.resilience s

gauged : (now : ℕ) → Option Gauges → Option Manager → Server → Response × Server
unfolding snapshot
gauged now none m s = (error_json 501 "metrics not configured", s)
gauged now (some g) none s = (record { status = 200; answer = metrics_text }, s)
gauged now (some g) (some m) s =
    let (snap, m1) = snapshot now m in
    (
      record { status = 200; answer = metrics_text },
      record s {
        resilience = some m1;
        metrics =
            some
              (record { queue_depth = snap.pending_replay_count; breaker_state = some snap.state });
      },
    )

unfoldable pub metrics_handler : (now : ℕ) → Server → Response × Server
unfolding gauged
metrics_handler now s = gauged now s.metrics s.resilience s
