-- ===== src/Webhook/Handler.antt =====
-- HandleForgejo and HandleSchedule of internal/webhook/forgejo.go. The request comes as its parts,
-- with the outcome of reading its body; JSON decoding is a parameter, and the job store an interface
-- over one state of the world, whose reads leave it as it is.
pub mod Safety
use renovate_docker_operator.Prelude.{
  ℕ, String, ◌<>◌, Bool, true, false, Option, none, some, List, [], ◌∷◌, str_eq, if◌then◌else◌,
}
use renovate_docker_operator.Api.{RenovateJob, RenovateStatusUpdate, only_status, scheduled}
use renovate_docker_operator.Resilience.{Manager, webhook, allow_dispatch, enqueue_webhook_replay}
use renovate_docker_operator.Webhook.Event.{
  ForgejoEvent, valid, ignored, reason_text, is_valid_forgejo_event,
}
use renovate_docker_operator.Webhook.Auth.{
  ResolverError, no_matching_job, webhook_disabled, project_not_discovered, authentication_failed,
  store_failed, Headers, AuthResult, Verifier, Resolved, find_and_authenticate_job,
}

-- What io.ReadAll of the limited body returns.
pub data Body : Type 0 where
  body_too_large body_unreadable : Body
  body_read : String → Body

pub record Request : Type 0 where
  pub event : String
  pub body : Body
  pub job_query : String
  pub project_query : String
  pub headers : Headers

-- The status, the fields of the JSON body, and the result of authentication that is set.
pub record Response : Type 0 where
  pub status : ℕ
  pub fields : List (String × String)
  pub auth : Option AuthResult

-- UpdateProjectStatus succeeds, returns ErrProjectNotFound, or another error.
pub data Updated : Type 0 where
  update_done update_missing update_failed : Updated

pub record Store (W : Type 0) : Type 0 where
  pub list_renovate_jobs_full : W → Option (List RenovateJob)
  pub verifier : W → Verifier
  pub update_project_status : String → String → RenovateStatusUpdate → W → Updated × W

-- The handler's own `resilience` is `none` until SetResilience.
pub record Handler (W : Type 0) : Type 0 where
  pub resilience : Option Manager
  pub world : W

abbrev pub json : ℕ → List (String × String) → Option AuthResult → Response
json status fields auth = record { status = status; fields = fields; auth = auth }

abbrev pub error_json : ℕ → String → Option AuthResult → Response
error_json status message = json status (("error", message) ∷ [])

unfoldable pub handle_resolver_error : ResolverError → Option AuthResult → Response
handle_resolver_error no_matching_job =
    error_json 404 "no matching job found for this webhook request"
handle_resolver_error webhook_disabled =
    error_json 400
      "webhooks are not enabled on the matched job; set webhook_enabled=1 in the database or enable via the UI"
handle_resolver_error project_not_discovered =
    error_json 404
      "project not found in job; ensure discovery has run and the project is registered"
handle_resolver_error authentication_failed = error_json 401 "unauthorized"
handle_resolver_error store_failed = error_json 500 "internal server error"

-- The gate before scheduling: it lets the project pass, queues it for replay, or finds the replay
-- queue full.
pub data Gate : Type 0 where
  gate_pass gate_queued gate_full : Gate

unfoldable pub gate : (now : ℕ) → String → Option Manager → Gate × Option Manager
gate now project none = (gate_pass, none)
gate now project (some m) =
    let (decision, m1) = allow_dispatch now project webhook m in
    let (full, m2) = enqueue_webhook_replay project m1 in
    if decision.allowed
    then (gate_pass, some m1)
    else ((if full then gate_full else gate_queued), some m2)

-- The answer where the update fails, or else `done`.
abbrev pub answer_update : String → Response → Option AuthResult → Updated → Response
answer_update project done auth update_done = done
answer_update project done auth update_missing =
    error_json 400 ("project not found: " <> project) auth
answer_update project done auth update_failed = error_json 500 "failed to process webhook" auth

module _ {W : Type 0} (store : Store W) where
  schedule :
      (project job : String) → Response → Option AuthResult → Handler W → Response × Handler W
  schedule project job done auth h =
      let (updated, world) =
        store.update_project_status project job (only_status scheduled) h.world in
      (answer_update project done auth updated, record h { world = world })

  after_gate :
      (project job : String)
      → Option AuthResult
      → Gate × Option Manager
      → Handler W
      → Response × Handler W
  unfolding schedule
  after_gate project job auth (gate_pass, m) h =
      schedule project job
        (json 202 (("message", "renovate job scheduled") ∷ ("repository", project) ∷ []) auth) auth
        (record h { resilience = m })
  after_gate project job auth (gate_queued, m) h =
      (json 202 (("queued", "true") ∷ ("project", project) ∷ []) auth, record h { resilience = m })
  after_gate project job auth (gate_full, m) h = (
    json 503 (("error", "replay queue full") ∷ ("project", project) ∷ []) auth,
    record h { resilience = m },
  )

  resolve : Request → (project body : String) → Handler W → Resolved
  resolve r project body h =
      find_and_authenticate_job (store.verifier h.world) (store.list_renovate_jobs_full h.world)
        r.job_query project r.headers body

  forgejo_resolved :
      (now : ℕ) (project : String)
      → Option String
      → ResolverError
      → Option AuthResult
      → Handler W
      → Response × Handler W
  unfolding handle_resolver_error gate after_gate
  forgejo_resolved now project none error auth h = (handle_resolver_error error auth, h)
  forgejo_resolved now project (some job) error auth h =
      after_gate project job auth (gate now project h.resilience) h

  forgejo_payload :
      (now : ℕ) → Request → (body : String) → ForgejoEvent → Handler W → Response × Handler W
  unfolding is_valid_forgejo_event reason_text forgejo_resolved resolve
  forgejo_payload now r body payload h = elim (is_valid_forgejo_event r.event payload) [
    | ignored reason ↦
        (json 200 (("message", "event ignored") ∷ ("reason", reason_text reason) ∷ []) none, h)
    | valid ↦
        let resolved = resolve r payload.repository body h in
        forgejo_resolved now payload.repository resolved.job resolved.error resolved.auth h
  ]

  forgejo_body :
      (decode : String → Option ForgejoEvent) (now : ℕ)
      → Request
      → Body
      → Handler W
      → Response × Handler W
  unfolding forgejo_payload
  forgejo_body decode now r body_too_large h = (error_json 413 "request body too large" none, h)
  forgejo_body decode now r body_unreadable h =
      (error_json 500 "failed to read request body" none, h)
  forgejo_body decode now r (body_read body) h = elim (decode body) [
    | none ↦ (error_json 400 "failed to decode payload" none, h)
    | some payload ↦ forgejo_payload now r body payload h
  ]

  unfoldable pub handle_forgejo :
      (decode : String → Option ForgejoEvent) (now : ℕ) → Request → Handler W → Response × Handler W
  unfolding forgejo_body
  handle_forgejo decode now r h =
      if str_eq r.event ""
      then (error_json 400 "missing X-Forgejo-Event header" none, h)
      else forgejo_body decode now r r.body h

  schedule_resolved :
      (project : String)
      → Option String
      → ResolverError
      → Option AuthResult
      → Handler W
      → Response × Handler W
  unfolding handle_resolver_error schedule
  schedule_resolved project none error auth h = (handle_resolver_error error auth, h)
  schedule_resolved project (some job) error auth h = schedule project job (json 200 [] auth) auth h

  schedule_body : Request → Body → Handler W → Response × Handler W
  unfolding schedule_resolved resolve
  schedule_body r body_too_large h = (error_json 413 "request body too large" none, h)
  schedule_body r body_unreadable h = (error_json 500 "failed to read request body" none, h)
  schedule_body r (body_read body) h =
      let resolved = resolve r r.project_query body h in
      schedule_resolved r.project_query resolved.job resolved.error resolved.auth h

  -- The answer of HandleSchedule has no body where it succeeds.
  unfoldable pub handle_schedule : Request → Handler W → Response × Handler W
  unfolding schedule_body
  handle_schedule r h =
      if str_eq r.project_query ""
      then (error_json 400 "missing project query parameter" none, h)
      else schedule_body r r.body h
