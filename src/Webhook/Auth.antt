-- ===== src/Webhook/Auth.antt =====
-- Which job a webhook is for, and whether it may ask: filterCandidates, authenticate and
-- findAndAuthenticateJob of internal/webhook/forgejo.go.
pub mod Sound
use text.Mathlib.Text.{starts_with}
use renovate_docker_operator.Prelude.{
  String, Bool, true, false, not, ◌&&◌, ◌||◌, Option, none, some, List, [], ◌∷◌, ◌++◌, str_eq,
  if◌then◌else◌, drop_chars, trim_prefix, trim_space,
}
use renovate_docker_operator.Api.{RenovateJob, RenovateWebhook, ProjectStatus}

pub data ResolverError : Type 0 where
  no_matching_job webhook_disabled project_not_discovered : ResolverError
  authentication_failed store_failed : ResolverError

unfoldable pub has_project : List ProjectStatus → String → Bool
has_project [] project = false
has_project (p ∷ ps) project = str_eq p.name project || has_project ps project

abbrev pub webhook_enabled : Option RenovateWebhook → Bool
webhook_enabled none = false
webhook_enabled (some w) = w.enabled

-- The local variables of filterCandidates.
pub record Filtered : Type 0 where
  pub out : List RenovateJob
  pub name_matched : Bool
  pub webhook_off : Bool
  pub project_missing : Bool

-- `jobName != "" && job.Name != jobName`
abbrev pub other_name : String → RenovateJob → Bool
other_name job_name job = not (str_eq job_name "") && not (str_eq job.name job_name)

filter_job : String → String → RenovateJob → Filtered → Filtered
filter_job job_name project job f =
    if other_name job_name job
    then f
    else (if webhook_enabled job.spec.webhook
        then (if has_project job.status.projects project
            then record f { name_matched = true; out = f.out ++ job ∷ [] }
            else record f { name_matched = true; project_missing = true })
        else record f { name_matched = true; webhook_off = true })

unfoldable pub filter_loop : List RenovateJob → String → String → Filtered → Filtered
unfolding filter_job
filter_loop [] job_name project f = f
filter_loop (job ∷ jobs) job_name project f =
    filter_loop jobs job_name project (filter_job job_name project job f)

-- The most specific reason for no match.
unfoldable pub no_match_reason : Filtered → ResolverError
no_match_reason f =
    if f.name_matched
    then (if f.webhook_off
        then webhook_disabled
        else (if f.project_missing then project_not_discovered else no_matching_job))
    else no_matching_job

abbrev pub unfiltered : Filtered
unfiltered = record { out = []; name_matched = false; webhook_off = false; project_missing = false }

-- The candidates; the reason counts only where there are none.
unfoldable pub filter_candidates :
    List RenovateJob → String → String → List RenovateJob × ResolverError
unfolding no_match_reason
filter_candidates jobs job_name project =
    let f = filter_loop jobs job_name project unfiltered in (f.out, no_match_reason f)

-- The credentials that a request may carry; "" is an absent header.
pub record Headers : Type 0 where
  pub forgejo_signature : String
  pub gitea_signature : String
  pub hub_signature_256 : String
  pub authorization : String
  pub gitlab_token : String

pub data Method : Type 0 where
  forgejo gitea hub bearer gitlab : Method

pub record AuthAttempt : Type 0 where
  pub method : Method
  pub verified : Bool

pub record AuthResult : Type 0 where
  pub required : Bool
  pub methods : List AuthAttempt
  pub success : Bool

-- IsWebhookSignatureValid and IsWebhookTokenValid of the state store; an error counts as invalid.
pub record Verifier : Type 0 where
  pub signature_valid : String → String → String → Bool
  pub token_valid : String → String → Bool

-- One "Try …" block, for a header that is `sent` and a check of it.
unfoldable pub try_method :
    Method
    → String
    → (String → Bool)
    → (AuthResult → Bool × AuthResult)
    → AuthResult
    → Bool × AuthResult
try_method method sent check otherwise result =
    if str_eq sent ""
    then otherwise result
    else (let tried = record result {
      methods = result.methods ++ record { method = method; verified = check sent } ∷ [];
    } in
        if check sent then (true, record tried { success = true }) else otherwise tried)

-- The token of "Bearer <token>", or the whole header.
unfoldable pub bearer_token : String → String
bearer_token header =
    if starts_with header "Bearer " then trim_space (drop_chars 7 header) else header

module _ (v : Verifier) (job : String) (h : Headers) where
  try_gitlab : AuthResult → Bool × AuthResult
  try_gitlab = try_method gitlab h.gitlab_token (λ t. v.token_valid job t) (λ r. (false, r))

  try_authorization : AuthResult → Bool × AuthResult
  unfolding try_gitlab
  try_authorization =
      try_method bearer h.authorization (λ a. v.token_valid job (bearer_token a)) try_gitlab

  try_hub : String → AuthResult → Bool × AuthResult
  unfolding try_authorization
  try_hub body =
      try_method hub h.hub_signature_256
        (λ s. v.signature_valid job (trim_prefix 7 "sha256=" s) body) try_authorization

  try_gitea : String → AuthResult → Bool × AuthResult
  unfolding try_hub
  try_gitea body =
      try_method gitea h.gitea_signature (λ s. v.signature_valid job s body) (try_hub body)

  try_forgejo : String → AuthResult → Bool × AuthResult
  unfolding try_gitea
  try_forgejo body =
      try_method forgejo h.forgejo_signature (λ s. v.signature_valid job s body) (try_gitea body)

-- The methods in the order in which they are tried.
unfoldable pub authenticate : Verifier → String → Headers → String → Bool × AuthResult
unfolding try_method bearer_token try_forgejo
authenticate v job h body =
    try_forgejo v job h body (record { required = true; methods = []; success = false })

abbrev pub auth_enabled : Option RenovateWebhook → Bool
auth_enabled none = false
auth_enabled (some w) = elim w.authentication [ none ↦ false | some enabled ↦ enabled ]

-- A job's name, or the error; and what SetAuthOnResponse was given last.
pub record Resolved : Type 0 where
  pub job : Option String
  pub error : ResolverError
  pub auth : Option AuthResult

-- The loop over the candidates, with the last result of a failed authentication.
authenticate_any : Verifier → Headers → String → List RenovateJob → Option AuthResult → Resolved
authenticate_any v h body [] last = record {
  job = none;
  error = authentication_failed;
  auth = last;
}
authenticate_any v h body (job ∷ jobs) last =
    let (ok, result) = authenticate v job.name h body in
    let rest = authenticate_any v h body jobs (some result) in
    if not (auth_enabled job.spec.webhook)
    then record {
      job = some job.name;
      error = no_matching_job;
      auth = some (record { required = false; methods = []; success = false });
    }
    else (if ok
        then record { job = some job.name; error = no_matching_job; auth = some result }
        else rest)

among : Verifier → Headers → String → List RenovateJob × ResolverError → Resolved
unfolding authenticate_any
among v h body ([], reason) = record { job = none; error = reason; auth = none }
among v h body (job ∷ jobs, reason) = authenticate_any v h body (job ∷ jobs) none

-- `none` is an error of ListRenovateJobsFull.
unfoldable pub find_and_authenticate_job :
    Verifier → Option (List RenovateJob) → String → String → Headers → String → Resolved
unfolding among filter_candidates
find_and_authenticate_job v none job_name project h body = record {
  job = none;
  error = store_failed;
  auth = none;
}
find_and_authenticate_job v (some jobs) job_name project h body =
    among v h body (filter_candidates jobs job_name project)
