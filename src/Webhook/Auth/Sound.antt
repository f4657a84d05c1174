-- ===== src/Webhook/Auth/Sound.antt =====
-- The candidates of a webhook, its authentication, and the job that the two resolve to.
use mathlib.Core.List.Memᴰ
use mathlib.Core.List.{append_assoc, append-nil, Memᴰ}
use renovate_docker_operator.Prelude.{
  String, ◌≡◌, ◌⊎◌, inl, inr, refl, ◌∙◌, ap, subst, Bool, true, false, not, ◌&&◌, ◌||◌, Option,
  none, some, List, [], ◌∷◌, ◌++◌, arith, str_eq, if◌then◌else◌, any, select, trim_prefix,
  Bool-cases,
}
use renovate_docker_operator.Api.{RenovateJob}
use renovate_docker_operator.Webhook.Auth.{
  ResolverError, no_matching_job, webhook_disabled, project_not_discovered, has_project,
  webhook_enabled, Filtered, other_name, filter_job, filter_loop, no_match_reason, unfiltered,
  filter_candidates, Headers, Method, forgejo, gitea, hub, bearer, AuthResult, Verifier, try_method,
  bearer_token, try_gitlab, try_authorization, try_hub, try_gitea, try_forgejo, authenticate,
  auth_enabled, authenticate_any, among, find_and_authenticate_job,
}

abbrev pub is_named : String → RenovateJob → Bool
is_named job_name job = not (other_name job_name job)

abbrev pub is_candidate : String → String → RenovateJob → Bool
is_candidate job_name project job =
    is_named job_name job
    && (webhook_enabled job.spec.webhook && has_project job.status.projects project)

abbrev pub is_disabled : String → RenovateJob → Bool
is_disabled job_name job = is_named job_name job && not (webhook_enabled job.spec.webhook)

abbrev pub is_undiscovered : String → String → RenovateJob → Bool
is_undiscovered job_name project job =
    is_named job_name job
    && (webhook_enabled job.spec.webhook && not (has_project job.status.projects project))

module _ (job_name project : String) where
  filtered : List RenovateJob → Filtered → Filtered
  filtered jobs f = record {
    out = f.out ++ select (is_candidate job_name project) jobs;
    name_matched = f.name_matched || any (is_named job_name) jobs;
    webhook_off = f.webhook_off || any (is_disabled job_name) jobs;
    project_missing = f.project_missing || any (is_undiscovered job_name project) jobs;
  }

  filtered-step :
      (job : RenovateJob) (jobs : List RenovateJob) (f : Filtered)
      → filtered jobs (filter_job job_name project job f) ≡ filtered (job ∷ jobs) f
  unfolding filtered filter_job
  filtered-step job jobs f =
      ground (arith, append_assoc f.out (job ∷ []) (select (is_candidate job_name project) jobs))

  filter_loop-filtered :
      (jobs : List RenovateJob) (f : Filtered)
      → filter_loop jobs job_name project f ≡ filtered jobs f
  unfolding filter_loop
  filter_loop-filtered [] f = unfold filtered in ground (arith, append-nil f.out)
  filter_loop-filtered (job ∷ jobs) f =
      filter_loop-filtered jobs (filter_job job_name project job f) ∙ filtered-step job jobs f

  nobody_named :
      (jobs : List RenovateJob)
      → any (is_named job_name) jobs ≡ false
      → (any (is_disabled job_name) jobs ≡ false)
        × (any (is_undiscovered job_name project) jobs ≡ false)
  nobody_named [] h = (refl, refl)
  nobody_named (job ∷ jobs) h =
      let rest : any (is_named job_name) jobs ≡ false = ground arith in
      let none_left = nobody_named jobs rest in (ground arith, ground arith)

  -- The candidates are the jobs, in their order, that have the requested name (any, where none is
  -- requested), webhooks enabled and the project; and where there are none, the reason is the first
  -- that applies: a job of that name has webhooks disabled, or one lacks the project, or else there
  -- is no job of that name.
  pub filter_candidates_lem :
      (jobs : List RenovateJob)
      → ((filter_candidates jobs job_name project).0 ≡ select (is_candidate job_name project) jobs)
        × ((filter_candidates jobs job_name project).1 ≡ (
            if any (is_disabled job_name) jobs
            then webhook_disabled
            else (if any (is_undiscovered job_name project) jobs
                then project_not_discovered
                else no_matching_job)))
  unfolding filter_candidates no_match_reason
  filter_candidates_lem jobs =
      rw (filter_loop-filtered jobs unfiltered)
        (unfold filtered in (refl, ground (arith, nobody_named jobs)))

-- A credential that is sent and passes its check.
abbrev pub passes : String → (String → Bool) → Bool
passes sent check = not (str_eq sent "") && check sent

try_method_lem :
    (m : Method) (sent : String) (check : String → Bool) (k : AuthResult → Bool × AuthResult)
    (b : Bool)
    → ((r : AuthResult) → (k r).0 ≡ b)
    → (r : AuthResult) → (try_method m sent check k r).0 ≡ (passes sent check || b)
unfolding try_method
try_method_lem m sent check k b h r = ground (
  arith,
  h r,
  h (record r { methods = r.methods ++ record { method = m; verified = check sent } ∷ [] }),
)

module _ (v : Verifier) (job : String) (h : Headers) (body : String) where
  abbrev by_token : Bool
  by_token =
      passes h.authorization (λ a. v.token_valid job (bearer_token a))
      || passes h.gitlab_token (λ t. v.token_valid job t)

  try_gitlab_lem :
      (r : AuthResult) → (try_gitlab v job h r).0 ≡ passes h.gitlab_token (λ t. v.token_valid job t)
  unfolding try_gitlab try_method
  try_gitlab_lem r = ground arith

  try_authorization_lem : (r : AuthResult) → (try_authorization v job h r).0 ≡ by_token
  unfolding try_authorization
  try_authorization_lem =
      try_method_lem bearer h.authorization (λ a. v.token_valid job (bearer_token a))
        (try_gitlab v job h) _ try_gitlab_lem

  try_hub_lem :
      (r : AuthResult)
      → (try_hub v job h body r).0 ≡ (
          passes h.hub_signature_256 (λ s. v.signature_valid job (trim_prefix 7 "sha256=" s) body)
          || by_token)
  unfolding try_hub
  try_hub_lem =
      try_method_lem hub h.hub_signature_256
        (λ s. v.signature_valid job (trim_prefix 7 "sha256=" s) body) (try_authorization v job h) _
        try_authorization_lem

-- A request is authentic exactly when one of the five credentials is sent and passes its check: a
-- signature of the body under X-Forgejo-Signature, X-Gitea-Signature or (without its prefix)
-- X-Hub-Signature-256, or a token under Authorization or X-Gitlab-Token. One that is sent and
-- fails does not spoil the others.
pub authenticate_lem :
    (v : Verifier) (job : String) (h : Headers) (body : String)
    → (authenticate v job h body).0 ≡ (
        passes h.forgejo_signature (λ s. v.signature_valid job s body)
        || (passes h.gitea_signature (λ s. v.signature_valid job s body)
            || (passes h.hub_signature_256
                  (λ s. v.signature_valid job (trim_prefix 7 "sha256=" s) body)
                || (passes h.authorization (λ a. v.token_valid job (bearer_token a))
                    || passes h.gitlab_token (λ t. v.token_valid job t)))))
unfolding authenticate try_forgejo try_gitea
authenticate_lem v job h body =
    try_method_lem forgejo h.forgejo_signature (λ s. v.signature_valid job s body)
      (try_gitea v job h body) _
      (try_method_lem gitea h.gitea_signature (λ s. v.signature_valid job s body)
        (try_hub v job h body) _ (try_hub_lem v job h body))
      (record { required = true; methods = []; success = false })

-- A job of that name in the list has the property.
pub data Among (P : RenovateJob → Type 0) (name : String) (jobs : List RenovateJob) : Type 0 where
  found : (job : RenovateJob) → Memᴰ job jobs → job.name ≡ name → P job → Among P name jobs

Among-cons :
    (P : RenovateJob → Type 0) (name : String) (job : RenovateJob) (jobs : List RenovateJob)
    → Among P name jobs
    → Among P name (job ∷ jobs)
Among-cons P name job jobs (found j m e p) = found j (Memᴰ.tail m) e p

-- Webhook authentication is off for the job, or the request is authentic.
abbrev pub IsAuthentic : Verifier → Headers → String → RenovateJob → Type 0
IsAuthentic v h body job =
    (auth_enabled job.spec.webhook ≡ false) ⊎ ((authenticate v job.name h body).0 ≡ true)

authenticate_any-Among :
    (v : Verifier) (h : Headers) (body : String) (jobs : List RenovateJob)
    (last : Option AuthResult) (name : String)
    → (authenticate_any v h body jobs last).job ≡ some name
    → Among (IsAuthentic v h body) name jobs
unfolding authenticate_any
authenticate_any-Among v h body [] last name e = cc
authenticate_any-Among v h body (job ∷ jobs) last name e =
    elim (Bool-cases (auth_enabled job.spec.webhook)) [
      | inl guarded ↦ elim (Bool-cases (authenticate v job.name h body).0) [
        | inl ok ↦ found job (Memᴰ.head refl) (ground arith) (inr ok)
        | inr bad ↦ Among-cons (IsAuthentic v h body) name job jobs (
            authenticate_any-Among v h body jobs (some (authenticate v job.name h body).1) name
              (ground arith))
      ]
      | inr unguarded ↦ found job (Memᴰ.head refl) (ground arith) (inl unguarded)
    ]

Memᴰ-kept :
    (job j : RenovateJob) (rest : List RenovateJob) (b : Bool)
    → Memᴰ job (if b then j ∷ rest else rest)
    → ((job ≡ j) × (b ≡ true)) ⊎ Memᴰ job rest
Memᴰ-kept job j rest true m = elim (Memᴰ.cases_cons m) [
  | inl e ↦ inl (e, refl)
  | inr there ↦ inr there
]
Memᴰ-kept job j rest false m = inr m

-- A member of a selection is a member that passes the test.
Memᴰ-select :
    (p : RenovateJob → Bool) (job : RenovateJob) (jobs : List RenovateJob)
    → Memᴰ job (select p jobs)
    → Memᴰ job jobs × (p job ≡ true)
Memᴰ-select p job [] m = elim m [ ]
Memᴰ-select p job (j ∷ jobs) m = elim (Memᴰ-kept job j (select p jobs) (p j) m) [
  | inl kept ↦ (Memᴰ.head kept.0, ap p kept.0 ∙ kept.1)
  | inr there ↦
      let (found_there, passed) = Memᴰ-select p job jobs there in (Memᴰ.tail found_there, passed)
]

Among-select :
    (P : RenovateJob → Type 0) (p : RenovateJob → Bool) (name : String) (jobs : List RenovateJob)
    → Among P name (select p jobs)
    → Among (λ job. (p job ≡ true) × P job) name jobs
Among-select P p name jobs (found job m e q) =
    let (there, passed) = Memᴰ-select p job jobs m in found job there e (passed, q)

among-Among :
    (v : Verifier) (h : Headers) (body name : String) (c : List RenovateJob × ResolverError)
    → (among v h body c).job ≡ some name
    → Among (IsAuthentic v h body) name c.0
unfolding among
among-Among v h body name ([], reason) e = cc
among-Among v h body name (job ∷ jobs, reason) e =
    authenticate_any-Among v h body (job ∷ jobs) none name e

-- The job that a webhook resolves to is one of the store's jobs: it has the requested name, webhooks
-- enabled and the project, and its authentication is off or the request is authentic for it.
pub find_and_authenticate_job_sound :
    (v : Verifier) (jobs : List RenovateJob) (job_name project : String) (h : Headers)
    (body name : String)
    → (find_and_authenticate_job v (some jobs) job_name project h body).job ≡ some name
    → Among (λ job. (is_candidate job_name project job ≡ true) × IsAuthentic v h body job) name jobs
unfolding find_and_authenticate_job
find_and_authenticate_job_sound v jobs job_name project h body name e =
    let chosen = among-Among v h body name (filter_candidates jobs job_name project) e in
    Among-select (IsAuthentic v h body) (is_candidate job_name project) name jobs (
      subst (λ l. Among (IsAuthentic v h body) name l)
        (filter_candidates_lem job_name project jobs).0 chosen)
