-- ===== src/Samples.antt =====
-- A small store, which the tests of several parts share.
use renovate_docker_operator.Prelude.{◌≡◌, refl, String, none, some, [], ◌∷◌, pos}
use renovate_docker_operator.Api.{RenovateJob, RenovateProjectStatus, running, completed}
use renovate_docker_operator.StateStore.Db.{JobRow, ProjectRow, Db, Codec, ok, query}
use renovate_docker_operator.StateStore.Projects.{scan_project}
use renovate_docker_operator.StateStore.Projects.Statuses.{sound}
use renovate_docker_operator.StateStore.Jobs.{build_renovate_job, list_renovate_jobs_full}

abbrev pub codec : Codec
codec = record {
  format_time = λ t. "now";
  parse_time = λ s. some 0;
  marshal_activity = λ a. none;
  unmarshal_activity = λ s. none;
  marshal_issues = λ i. none;
  unmarshal_issues = λ s. none;
  unmarshal_strings = λ s. some [];
  unmarshal_env = λ s. some [];
}

abbrev pub job_row : JobRow
job_row = record {
  name = "default";
  schedule = "0 */4 * * *";
  image = "renovate/renovate:latest";
  platform = "";
  endpoint = "";
  discovery_filters = "";
  discover_topics = "";
  skip_forks = pos 0;
  skip_pending_deletion = pos 0;
  secret_ref = "";
  extra_env = "";
  parallelism = pos 1;
  webhook_enabled = pos 1;
  webhook_auth_enabled = pos 0;
  webhook_sync_enabled = pos 0;
  allowed_groups = "";
  debug_mode = pos 0;
}

abbrev pub project_row : String → RenovateProjectStatus → ProjectRow
project_row name status = record {
  job_name = "default";
  full_name = name;
  status = status;
  priority = pos 0;
  last_run = none;
  duration = none;
  renovate_result_status = none;
  pr_activity = none;
  log_issues = none;
  current_container_id = none;
}

abbrev pub db : Db
db = record {
  jobs = job_row ∷ [];
  projects = project_row "a" running ∷ project_row "b" completed ∷ [];
  logs = [];
  settings = [];
  discovery = [];
}

abbrev pub listed_job : RenovateJob
listed_job = record (build_renovate_job codec job_row) {
  status = record {
    projects =
        scan_project codec (project_row "a" running)
        ∷ scan_project codec (project_row "b" completed)
        ∷ [];
    execution_options = none;
  };
}

pub listed_run : list_renovate_jobs_full codec (sound db) ≡ (ok (listed_job ∷ []), sound db)
unfolding list_renovate_jobs_full query build_renovate_job scan_project
listed_run = refl
