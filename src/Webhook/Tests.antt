-- ===== src/Webhook/Tests.antt =====
-- Webhooks on small inputs, and the theorems about them at concrete inputs.
use renovate_docker_operator.Prelude.{
  ℕ, String, ◌<>◌, ◌≡◌, ◌⊎◌, refl, Bool, true, false, Option, none, some, List, [], ◌∷◌, pos,
  str_eq, contains, put, if◌then◌else◌, trim_prefix, drop_chars, lookup,
}
use renovate_docker_operator.Api.{RenovateJob, ProjectStatus, completed}
use renovate_docker_operator.Resilience.{
  Config, Manager, open_state, new, put_project, with_defaults, get_or_create_project,
  enqueue_webhook_replay, allow_dispatch,
}
use renovate_docker_operator.Webhook.Event.{ForgejoEvent}
use renovate_docker_operator.Webhook.Auth.{
  Headers, Verifier, filter_loop, has_project, authenticate, find_and_authenticate_job,
}
use renovate_docker_operator.Webhook.Auth.Sound.{
  is_candidate, Among, IsAuthentic, find_and_authenticate_job_sound,
}
use renovate_docker_operator.Webhook.Handler.{
  body_read, Request, update_done, Store, Handler, handle_forgejo,
}
use renovate_docker_operator.Webhook.Handler.Safety.{
  AnyAccepted, IsKept, handle_forgejo_only_accepted, handle_forgejo_accepted-IsKept,
  handle_forgejo_open_breaker,
}

abbrev discovered : ProjectStatus
discovered = record {
  name = "org/repo";
  last_run = 0;
  duration = none;
  status = completed;
  priority = pos 0;
  renovate_result_status = none;
  pr_activity = none;
  log_issues = none;
}

-- A job that guards its webhook, or not.
abbrev job : String → Bool → RenovateJob
job name guarded = record {
  name = name;
  spec = record {
    schedule = "0 */4 * * *";
    image = "renovate/renovate:latest";
    provider = none;
    discovery_filters = [];
    discover_topics = [];
    skip_forks = false;
    skip_pending_deletion = false;
    secret_ref = "";
    extra_env = [];
    parallelism = pos 2;
    webhook = some (record { enabled = true; authentication = some guarded; sync = none });
    allowed_groups = [];
  };
  status = record { projects = discovered ∷ []; execution_options = none };
}

abbrev jobs : List RenovateJob
jobs = job "main" true ∷ job "other" true ∷ []

-- The signature of a body is the job's name followed by the body.
abbrev verifier : Verifier
verifier = record {
  signature_valid = λ name signature body. str_eq signature (name <> body);
  token_valid = λ name token. str_eq token "secret";
}

abbrev headers : Headers
headers = record {
  forgejo_signature = "bad";
  gitea_signature = "";
  hub_signature_256 = "sha256=mainpush";
  authorization = "";
  gitlab_token = "";
}

abbrev request : Request
request = record {
  event = "push";
  body = body_read "push";
  job_query = "main";
  project_query = "org/repo";
  headers = headers;
}

abbrev payload : ForgejoEvent
payload = record {
  action = "";
  pull_request = none;
  issue = none;
  repository = "org/repo";
  ref = "refs/heads/main";
  before = "";
  after = "1234";
}

abbrev decode : String → Option ForgejoEvent
decode body = if str_eq body "push" then some payload else none

-- The world counts the updates.
abbrev store : Store ℕ
store = record {
  list_renovate_jobs_full = λ w. some jobs;
  verifier = λ w. verifier;
  update_project_status = λ project name update w. (update_done, ℕ.suc w);
}

abbrev defaults : Config
defaults = record {
  failure_min_runtime = pos 0;
  backoff_base = pos 0;
  backoff_max = pos 0;
  rapid_fail_window = pos 0;
  rapid_fail_threshold = pos 0;
  replay_queue_cap = pos 0;
}

abbrev shut : Manager
shut = record (new defaults) { state = open_state }

abbrev gated : Handler ℕ
gated = record { resilience = some shut; world = 0 }

abbrev ungated : Handler ℕ
ungated = record { resilience = none; world = 0 }

ungated_run : (handle_forgejo store decode 7 request ungated).0.status ≡ 202
unfolding handle_forgejo find_and_authenticate_job filter_loop has_project authenticate trim_prefix
    drop_chars allow_dispatch enqueue_webhook_replay get_or_create_project put_project new contains
    lookup put with_defaults
ungated_run = refl

gated_run : (handle_forgejo store decode 7 request gated).0.status ≡ 202
unfolding handle_forgejo find_and_authenticate_job filter_loop has_project authenticate trim_prefix
    drop_chars allow_dispatch enqueue_webhook_replay get_or_create_project put_project new contains
    lookup put with_defaults
gated_run = refl

resolved_main :
    (find_and_authenticate_job verifier (some jobs) "main" "org/repo" headers "push").job
    ≡ some "main"
unfolding find_and_authenticate_job filter_loop has_project authenticate trim_prefix drop_chars
resolved_main = refl

shut_unmarked : (project : String) → (get_or_create_project project shut).manual_pending ≡ false
unfolding get_or_create_project new lookup
shut_unmarked project = refl

abbrev push_event : String
push_event = "push"

find_and_authenticate_job_sound_example :
    Among
      (λ j. (is_candidate "main" "org/repo" j ≡ true) × IsAuthentic verifier headers "push" j)
      "main"
      jobs
find_and_authenticate_job_sound_example =
    find_and_authenticate_job_sound verifier jobs "main" "org/repo" headers "push" "main"
      resolved_main

handle_forgejo_only_accepted_example :
    ((handle_forgejo store decode 7 request gated).1 ≡ gated)
    ⊎ AnyAccepted store decode 7 request gated
handle_forgejo_only_accepted_example = handle_forgejo_only_accepted store decode 7 request gated

handle_forgejo_accepted-IsKept_example :
    IsKept store "org/repo" gated (handle_forgejo store decode 7 request gated).1
handle_forgejo_accepted-IsKept_example =
    handle_forgejo_accepted-IsKept store decode 7 request gated "push" payload refl refl gated_run

handle_forgejo_open_breaker_example : (handle_forgejo store decode 7 request gated).1.world ≡ 0
handle_forgejo_open_breaker_example =
    handle_forgejo_open_breaker store decode 7 request gated shut refl refl shut_unmarked
