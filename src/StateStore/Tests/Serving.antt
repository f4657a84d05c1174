-- ===== src/StateStore/Tests/Serving.antt =====
-- Webhooks over the store, and its writes in a row, on small inputs, and the theorems about them at
-- concrete ones.
use renovate_docker_operator.Prelude.{
  ◌*◌, String, ◌<>◌, ◌≡◌, refl, Option, none, some, List, [], ◌∷◌, pos, arith, str_eq,
  if◌then◌else◌,
}
use renovate_docker_operator.Resilience.{second}
use renovate_docker_operator.Webhook.Event.{ForgejoEvent}
use renovate_docker_operator.Webhook.Auth.{
  find_and_authenticate_job, authenticate, filter_loop, has_project,
}
use renovate_docker_operator.Webhook.Handler.{body_read, Request, Handler, handle_forgejo}
use renovate_docker_operator.StateStore.Db.{JobRow, Db, query}
use renovate_docker_operator.StateStore.Settings.{Crypto, is_webhook_signature_valid}
use renovate_docker_operator.StateStore.Projects.{update_project_status}
use renovate_docker_operator.StateStore.Projects.Unique.Methods.{
  Write, updating, reconciling, cancelling,
}
use renovate_docker_operator.StateStore.Jobs.{list_renovate_jobs_full}
use renovate_docker_operator.StateStore.Jobs.Serving.{served, IsServed, handle_forgejo-served}
use renovate_docker_operator.StateStore.Tests.{codec, codec-IsCodec, db, done}

abbrev writes : List Write
writes =
    updating (3 * second) "org/a" "main" done
    ∷ reconciling (4 * second) "main" ("org/b" ∷ "org/c" ∷ "org/c" ∷ [])
    ∷ cancelling "org/b" "main"
    ∷ []

-- A guarded job.
abbrev main : JobRow
main = record {
  name = "main";
  schedule = "0 */4 * * *";
  image = "renovate/renovate:latest";
  platform = "forgejo";
  endpoint = "";
  discovery_filters = "[]";
  discover_topics = "[]";
  skip_forks = pos 0;
  skip_pending_deletion = pos 0;
  secret_ref = "";
  extra_env = "[]";
  parallelism = pos 2;
  webhook_enabled = pos 1;
  webhook_auth_enabled = pos 1;
  webhook_sync_enabled = pos 0;
  allowed_groups = "[]";
  debug_mode = pos 1;
}

abbrev crypto : Crypto String
crypto = record {
  hmac_hex = λ message secret. secret <> message;
  base64_decode = λ text. some text;
  bytes = λ text. text;
  hmac_base64 = λ key message. key <> message;
}

abbrev payload : ForgejoEvent
payload = record {
  action = "";
  pull_request = none;
  issue = none;
  repository = "org/a";
  ref = "refs/heads/main";
  before = "";
  after = "1234";
}

abbrev decode : String → Option ForgejoEvent
decode body = if str_eq body "push" then some payload else none

abbrev request : Request
request = record {
  event = "push";
  body = body_read "push";
  job_query = "main";
  project_query = "";
  headers = record {
    forgejo_signature = "keypush";
    gitea_signature = "";
    hub_signature_256 = "";
    authorization = "";
    gitlab_token = "";
  };
}

abbrev handler : Handler Db
handler = record { resilience = none; world = record db { jobs = main ∷ [] } }

accepted_run :
    (handle_forgejo
      (served codec crypto ("key" ∷ []) (3 * second) [] [])
      decode
      7
      request
      handler).0.status
    ≡ 202
unfolding handle_forgejo find_and_authenticate_job list_renovate_jobs_full query filter_loop
    has_project authenticate is_webhook_signature_valid update_project_status
accepted_run = refl

handle_forgejo-served_example :
    IsServed codec crypto
      ("key" ∷ [])
      (3 * second)
      []
      []
      "org/a"
      handler
      (handle_forgejo
        (served codec crypto ("key" ∷ []) (3 * second) [] [])
        decode
        7
        request
        handler).1
handle_forgejo-served_example =
    handle_forgejo-served codec crypto ("key" ∷ []) (3 * second) [] [] codec-IsCodec (omega arith)
      decode 7 request handler "push" payload refl refl accepted_run
