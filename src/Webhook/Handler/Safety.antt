-- ===== src/Webhook/Handler/Safety.antt =====
-- What a webhook request may change, and what its answer promises: HandleForgejo and HandleSchedule
-- of internal/webhook/forgejo.go.
use renovate_docker_operator.Prelude.{
  ℕ, String, ◌≡◌, ◌≢◌, ◌⊎◌, inl, inr, refl, ap, Bool, true, false, Option, none, some, List, [],
  ◌∷◌, arith, str_eq, contains, Option-cases, if◌then◌else◌, eq_refl,
}
use renovate_docker_operator.Api.{RenovateJob, only_status, scheduled}
use renovate_docker_operator.Resilience.{
  Manager, open_state, webhook, allow_dispatch, enqueue_webhook_replay, get_or_create_project,
}
use renovate_docker_operator.Resilience.Replay.{enqueue_webhook_replay_lem}
use renovate_docker_operator.Webhook.Event.{
  ForgejoEvent, reason_text, Validity, valid, ignored, is_valid_forgejo_event,
}
use renovate_docker_operator.Webhook.Auth.{
  ResolverError, AuthResult, Resolved, find_and_authenticate_job,
}
use renovate_docker_operator.Webhook.Auth.Sound.{
  Among, is_candidate, IsAuthentic, find_and_authenticate_job_sound,
}
use renovate_docker_operator.Webhook.Handler.{
  Body, body_read, body_too_large, body_unreadable, Request, Response, update_done, update_missing,
  update_failed, Updated, Store, Handler, handle_resolver_error, answer_update, json, error_json,
  Gate, gate_pass, gate_queued, gate_full, gate, schedule, after_gate, resolve, forgejo_resolved,
  forgejo_payload, forgejo_body, handle_forgejo, schedule_resolved, schedule_body, handle_schedule,
}

-- The store lists a candidate of that name for the request, whose authentication is off or for which
-- the request is authentic.
pub data IsPermitted {W : Type 0} (store : Store W) (r : Request) (project body : String)
    (h : Handler W) : String → Type 0 where
  permitted :
      (jobs : List RenovateJob) (name : String)
      → store.list_renovate_jobs_full h.world ≡ some jobs
      → Among
          (λ job.
            (is_candidate r.job_query project job ≡ true)
            × IsAuthentic (store.verifier h.world) r.headers body job)
          name
          jobs
      → IsPermitted store r project body h name

module _ {W : Type 0} (store : Store W) where
  resolve-IsPermitted :
      (r : Request) (project body : String) (h : Handler W) (name : String)
      → (resolve store r project body h).job ≡ some name
      → IsPermitted store r project body h name
  unfolding resolve
  resolve-IsPermitted r project body h name e =
      elim (Option-cases (store.list_renovate_jobs_full h.world)) [
        | inl failed ↦ unfold find_and_authenticate_job in ground arith
        | inr (jobs, listed) ↦ permitted jobs name listed (
            find_and_authenticate_job_sound (store.verifier h.world) jobs r.job_query project
              r.headers body name (rw listed at e))
      ]

  handle_resolver_error-status :
      (error : ResolverError) (auth : Option AuthResult)
      → (handle_resolver_error error auth).status ≢ 202
  unfolding handle_resolver_error
  handle_resolver_error-status error auth = ground arith

  -- The request carries this payload, an event that starts a run, and may schedule the job.
  pub data IsAccepted (decode : String → Option ForgejoEvent) (r : Request) (h : Handler W)
      (payload : ForgejoEvent) (name : String) : Type 0 where
    accepted :
        (body : String)
        → r.body ≡ body_read body
        → decode body ≡ some payload
        → is_valid_forgejo_event r.event payload ≡ valid
        → IsPermitted store r payload.repository body h name
        → IsAccepted decode r h payload name

  module _ (decode : String → Option ForgejoEvent) (now : ℕ) (r : Request) (h : Handler W) where
    -- HandleForgejo answers and changes nothing, or the event is accepted and the answer is that of
    -- the gate and the scheduling.
    data Run : Response × Handler W → Type 0 where
      refused : (answer : Response) → answer.status ≢ 202 → Run (answer, h)
      went :
          (payload : ForgejoEvent) (name : String) (auth : Option AuthResult)
          → IsAccepted decode r h payload name
          → Run (
              after_gate store payload.repository name auth
                (gate now payload.repository h.resilience)
                h)

    forgejo_resolved-Run :
        (body : String) (payload : ForgejoEvent) (job : Option String) (error : ResolverError)
        (auth : Option AuthResult)
        → ((name : String) → job ≡ some name → IsAccepted decode r h payload name)
        → Run (forgejo_resolved store now payload.repository job error auth h)
    unfolding forgejo_resolved
    forgejo_resolved-Run body payload none error auth ok =
        refused (handle_resolver_error error auth) (handle_resolver_error-status error auth)
    forgejo_resolved-Run body payload (some name) error auth ok =
        went payload name auth (ok name refl)

    forgejo_payload-Run :
        (body : String) (payload : ForgejoEvent)
        → r.body ≡ body_read body
        → decode body ≡ some payload
        → Run (forgejo_payload store now r body payload h)
    unfolding forgejo_payload
    forgejo_payload-Run body payload e d = go (is_valid_forgejo_event r.event payload) refl
      where
        resolved : Resolved
        resolved = resolve store r payload.repository body h

        go :
            (v : Validity)
            → is_valid_forgejo_event r.event payload ≡ v
            → Run (elim v [
              | ignored reason ↦ (
                json 200 (("message", "event ignored") ∷ ("reason", reason_text reason) ∷ []) none,
                h,
              )
              | valid ↦
                  forgejo_resolved store now payload.repository resolved.job resolved.error
                    resolved.auth h
            ])
        go (ignored reason) i = refused _ (ground arith)
        go valid i =
            forgejo_resolved-Run body payload resolved.job resolved.error resolved.auth (λ name j.
              accepted body e d i (resolve-IsPermitted r payload.repository body h name j))

    forgejo_body-Run : (b : Body) → r.body ≡ b → Run (forgejo_body store decode now r b h)
    unfolding forgejo_body
    forgejo_body-Run body_too_large e = refused _ (ground arith)
    forgejo_body-Run body_unreadable e = refused _ (ground arith)
    forgejo_body-Run (body_read body) e = go (decode body) refl
      where
        go :
            (o : Option ForgejoEvent)
            → decode body ≡ o
            → Run (elim o [
              | none ↦ (error_json 400 "failed to decode payload" none, h)
              | some payload ↦ forgejo_payload store now r body payload h
            ])
        go none d = refused _ (ground arith)
        go (some payload) d = forgejo_payload-Run body payload e d

    handle_forgejo-Run : Run (handle_forgejo store decode now r h)
    unfolding handle_forgejo
    handle_forgejo-Run = choose (str_eq r.event "")
      where
        choose :
            (absent : Bool)
            → Run (
                if absent
                then (error_json 400 "missing X-Forgejo-Event header" none, h)
                else forgejo_body store decode now r r.body h)
        choose true = refused _ (ground arith)
        choose false = forgejo_body-Run r.body refl

    abbrev pub AnyAccepted : Type 0
    AnyAccepted = (payload : ForgejoEvent) × (name : String) × IsAccepted decode r h payload name

    -- HandleForgejo changes nothing, neither in the store nor in the resilience manager, unless the
    -- body can be read and decoded, the event is one that starts a run, and the store lists a job
    -- for the project that the request may schedule.
    pub handle_forgejo_only_accepted : ((handle_forgejo store decode now r h).1 ≡ h) ⊎ AnyAccepted
    handle_forgejo_only_accepted = of_run (handle_forgejo-Run)
      where
        of_run : {o : Response × Handler W} → Run o → (o.1 ≡ h) ⊎ AnyAccepted
        of_run (refused answer bad) = inl refl
        of_run (went payload name auth ok) = inr (payload, name, ok)

  -- What an accepted request leaves: the store took the status, or the project waits for a replay.
  pub data IsKept (project : String) (h : Handler W) : Handler W → Type 0 where
    stored :
        (job : String) (h' : Handler W)
        → store.update_project_status project job (only_status scheduled) h.world
          ≡ (update_done, h'.world)
        → IsKept project h h'
    queued :
        (h' : Handler W) (m : Manager)
        → h'.resilience ≡ some m
        → contains project m.pending_replay ≡ true
        → IsKept project h h'

  gate-queued :
      (now : ℕ) (project : String) (o : Option Manager)
      → (gate now project o).0 ≡ gate_queued
      → (m : Manager) × ((gate now project o).1 ≡ some m)
        × (contains project m.pending_replay ≡ true)
  unfolding gate
  gate-queued now project none e = ground arith
  gate-queued now project (some m) e =
      let m1 = (allow_dispatch now project webhook m).1 in
      let enqueued = enqueue_webhook_replay_lem project m1 project in
      (
        (enqueue_webhook_replay project m1).1,
        ground arith,
        ground (arith, enqueued, eq_refl project),
      )

  answer_update-done :
      (project : String) (done : Response) (auth : Option AuthResult) (u : Updated)
      → (answer_update project done auth u).status ≡ 202
      → u ≡ update_done
  answer_update-done project done auth update_done e = refl
  answer_update-done project done auth update_missing e = ground arith
  answer_update-done project done auth update_failed e = ground arith

  schedule-IsKept :
      (project name : String) (done : Response) (auth : Option AuthResult) (h : Handler W)
      → (schedule store project name done auth h).0.status ≡ 202
      → IsKept project h (schedule store project name done auth h).1
  unfolding schedule
  schedule-IsKept project name done auth h e =
      stored name (schedule store project name done auth h).1 (
        unfold schedule in
        ap (λ u. (u, (store.update_project_status project name (only_status scheduled) h.world).1))
          (answer_update-done project done auth
            (store.update_project_status project name (only_status scheduled) h.world).0 e))

  IsKept-record :
      (project : String) (h h' : Handler W) (m : Option Manager)
      → IsKept project (record h { resilience = m }) h'
      → IsKept project h h'
  IsKept-record project h h' m (stored job x e) = stored job x e
  IsKept-record project h h' m (queued x n e waits) = queued x n e waits

  after_gate-IsKept :
      (project name : String) (auth : Option AuthResult) (h : Handler W) (g : Gate × Option Manager)
      → (g.0 ≡ gate_queued
          → (m : Manager) × (g.1 ≡ some m) × (contains project m.pending_replay ≡ true))
      → (after_gate store project name auth g h).0.status ≡ 202
      → IsKept project h (after_gate store project name auth g h).1
  unfolding after_gate
  after_gate-IsKept project name auth h (gate_pass, m) q e =
      IsKept-record project h _ m
        (schedule-IsKept project name _ auth (record h { resilience = m }) e)
  after_gate-IsKept project name auth h (gate_queued, o) q e =
      let (m, is_m, waits) = q refl in queued _ m is_m waits
  after_gate-IsKept project name auth h (gate_full, m) q e = ground arith

  -- A webhook that is answered with 202 is not lost: the store has taken the scheduled status for
  -- the project of the event, or the project is in the replay queue.
  pub handle_forgejo_accepted-IsKept :
      (decode : String → Option ForgejoEvent) (now : ℕ) (r : Request) (h : Handler W)
      (body : String) (payload : ForgejoEvent)
      → r.body ≡ body_read body
      → decode body ≡ some payload
      → (handle_forgejo store decode now r h).0.status ≡ 202
      → IsKept payload.repository h (handle_forgejo store decode now r h).1
  handle_forgejo_accepted-IsKept decode now r h body payload e d =
      of_run (handle_forgejo-Run decode now r h)
    where
      of_run :
          {o : Response × Handler W}
          → Run decode now r h o
          → o.0.status ≡ 202
          → IsKept payload.repository h o.1
      of_run (refused answer bad) s = absurd (bad s)
      of_run (went p name auth (accepted b f g i may)) s =
          let same : payload ≡ p = cc in
          rw same (
            after_gate-IsKept p.repository name auth h (gate now p.repository h.resilience)
              (gate-queued now p.repository h.resilience) s)

  gate-open :
      (now : ℕ) (project : String) (m : Manager)
      → m.state ≡ open_state
      → (get_or_create_project project m).manual_pending ≡ false
      → (gate now project (some m)).0 ≢ gate_pass
  unfolding gate allow_dispatch
  gate-open now project m o p e = ground arith

  world-after_gate :
      (project name : String) (auth : Option AuthResult) (h : Handler W) (g : Gate × Option Manager)
      → g.0 ≢ gate_pass
      → (after_gate store project name auth g h).1.world ≡ h.world
  unfolding after_gate
  world-after_gate project name auth h (gate_pass, m) n = absurd (n refl)
  world-after_gate project name auth h (gate_queued, m) n = refl
  world-after_gate project name auth h (gate_full, m) n = refl

  -- While the breaker is open, HandleForgejo leaves the store as it is, unless the project of the
  -- event is marked for a manual run.
  pub handle_forgejo_open_breaker :
      (decode : String → Option ForgejoEvent) (now : ℕ) (r : Request) (h : Handler W) (m : Manager)
      → h.resilience ≡ some m
      → m.state ≡ open_state
      → ((project : String) → (get_or_create_project project m).manual_pending ≡ false)
      → (handle_forgejo store decode now r h).1.world ≡ h.world
  handle_forgejo_open_breaker decode now r h m e o unmarked =
      of_run (handle_forgejo-Run decode now r h)
    where
      of_run : {o : Response × Handler W} → Run decode now r h o → o.1.world ≡ h.world
      of_run (refused answer bad) = refl
      of_run (went p name auth ok) =
          world-after_gate p.repository name auth h (gate now p.repository h.resilience)
            (rw e (gate-open now p.repository m o (unmarked p.repository)))

  abbrev pub AnyPermitted : Request → Handler W → Type 0
  AnyPermitted r h =
      (body : String) × (name : String) × IsPermitted store r r.project_query body h name

  abbrev pub IsHarmless : Request → Handler W → Handler W → Type 0
  IsHarmless r h h' = (h'.resilience ≡ h.resilience) × ((h' ≡ h) ⊎ AnyPermitted r h)

  schedule_resolved-IsHarmless :
      (r : Request) (h : Handler W) (job : Option String) (error : ResolverError)
      (auth : Option AuthResult)
      → ((name : String) → job ≡ some name → AnyPermitted r h)
      → IsHarmless r h (schedule_resolved store r.project_query job error auth h).1
  unfolding schedule_resolved schedule
  schedule_resolved-IsHarmless r h none error auth ok = (refl, inl refl)
  schedule_resolved-IsHarmless r h (some name) error auth ok = (refl, inr (ok name refl))

  schedule_body-IsHarmless :
      (r : Request) (h : Handler W) (b : Body) → IsHarmless r h (schedule_body store r b h).1
  unfolding schedule_body
  schedule_body-IsHarmless r h body_too_large = (refl, inl refl)
  schedule_body-IsHarmless r h body_unreadable = (refl, inl refl)
  schedule_body-IsHarmless r h (body_read body) =
      let resolved = resolve store r r.project_query body h in
      schedule_resolved-IsHarmless r h resolved.job resolved.error resolved.auth
        (λ name e. (body, name, resolve-IsPermitted r r.project_query body h name e))

  -- HandleSchedule never touches the resilience manager, and it changes the store only for a job
  -- that the request may schedule.
  pub handle_schedule_only_permitted :
      (r : Request) (h : Handler W)
      → ((handle_schedule store r h).1.resilience ≡ h.resilience)
        × (((handle_schedule store r h).1 ≡ h) ⊎ AnyPermitted r h)
  unfolding handle_schedule
  handle_schedule_only_permitted r h = choose (str_eq r.project_query "")
    where
      choose :
          (absent : Bool)
          → IsHarmless r h
              (if absent
                then (error_json 400 "missing project query parameter" none, h)
                else schedule_body store r r.body h).1
      choose true = (refl, inl refl)
      choose false = schedule_body-IsHarmless r h r.body
