-- ===== src/Server/Listing.antt =====
-- getRenovateJobs of internal/server/server.go.
use renovate_docker_operator.Prelude.{
  ℕ, String, Bool, false, Option, none, some, List, [], ◌∷◌, str_eq, if◌then◌else◌,
}
use renovate_docker_operator.Api.{RenovateJob, RenovateProvider, RenovateWebhook}
use renovate_docker_operator.StateStore.Db.{Codec, Result, ok, err, Session}
use renovate_docker_operator.StateStore.Settings.{DiscoveryStatus, get_discovery_status}
use renovate_docker_operator.StateStore.Jobs.{list_renovate_jobs_full}
use renovate_docker_operator.Server.State.{Server, RenovateJobInfo, jobs, Response}
use renovate_docker_operator.Server.{error_json, build_debug_mode_info}

abbrev platform_of : Option RenovateProvider → String × String
platform_of none = ("", "")
platform_of (some p) = (p.name, p.endpoint)

abbrev is_webhook_on : Option RenovateWebhook → Bool
is_webhook_on none = false
is_webhook_on (some w) = w.enabled

-- An error counts as no status.
abbrev found_status : Result (Option DiscoveryStatus) → DiscoveryStatus
found_status (ok (some status)) =
    if str_eq status.status "" then record status { status = "idle" } else status
found_status _ = record { status = "idle"; started_at = none; completed_at = none; error = "" }

module _ (codec : Codec) where
  module _ (next_run : String → ℕ) (level : String) where
    job_info : RenovateJob → DiscoveryStatus → RenovateJobInfo
    unfolding build_debug_mode_info
    job_info job status = record {
      name = job.name;
      cron_expression = job.spec.schedule;
      next_schedule = next_run job.spec.schedule;
      projects = job.status.projects;
      platform = (platform_of job.spec.provider).0;
      platform_endpoint = (platform_of job.spec.provider).1;
      execution_options = job.status.execution_options;
      debug_mode = build_debug_mode_info level job.status.execution_options;
      webhook_enabled = is_webhook_on job.spec.webhook;
      discovery_status = status.status;
      discovery_started = status.started_at;
      discovery_error = status.error;
    }

    job_infos : List RenovateJob → Session → List RenovateJobInfo × Session
    unfolding job_info
    job_infos [] s = ([], s)
    job_infos (job ∷ rest) s =
        let (status, s1) = get_discovery_status codec job.name s in
        let (infos, s2) = job_infos rest s1 in (job_info job (found_status status) ∷ infos, s2)

    listed_infos : Result (List RenovateJob) × Session → Server → Response × Server
    unfolding job_infos
    listed_infos (err e, session) s =
        (error_json 500 "failed to load jobs", record s { store = session })
    listed_infos (ok found, session) s =
        let (infos, session1) = job_infos found session in
        (record { status = 200; answer = jobs infos }, record s { store = session1 })

    unfoldable pub get_renovate_jobs : Server → Response × Server
    unfolding listed_infos
    get_renovate_jobs s = listed_infos (list_renovate_jobs_full codec s.store) s
