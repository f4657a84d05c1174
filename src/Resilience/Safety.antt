-- ===== src/Resilience/Safety.antt =====
-- What the gate of resilience.go guarantees over executions: an open breaker stays shut until a
-- reset, and a manual mark is not lost.
use renovate_docker_operator.Prelude.{
  ℕ, String, ◌≡◌, ◌≢◌, refl, true, false, List, [], ◌∷◌, arith, eq_iff, lookup,
}
use renovate_docker_operator.Resilience.{
  Source, manual, success, rapid_fail, slow_fail, open_state, Manager, allow, breaker_open,
  get_or_create_project, put_project, report, allow_dispatch, mark_manual, enqueue_webhook_replay,
  reset, snapshot, trim_window, maybe_trip,
}
use renovate_docker_operator.Resilience.Projects.{
  reported, get-report, get-allow_dispatch, get-mark_manual,
}
use renovate_docker_operator.Resilience.Gate.{allow_dispatch_marked, mark_manual-pending}
use renovate_docker_operator.Resilience.Trace.{
  Call, reporting, asking, marking, enqueuing, resetting, viewing, step, run,
}

-- No reset, and no manual mark of this project.
abbrev pub IsQuiet : String → List Call → Type 0
IsQuiet project [] = Unit
IsQuiet project (resetting now ∷ calls) = ⊥
IsQuiet project (marking other ∷ calls) = (other ≢ project) × IsQuiet project calls
IsQuiet project (_ ∷ calls) = IsQuiet project calls

abbrev IsResetting : Call → Type 0
IsResetting (resetting now) = Unit
IsResetting _ = ⊥

abbrev IsMarking : String → Call → Type 0
IsMarking project (marking other) = other ≡ project
IsMarking _ _ = ⊥

state-step :
    (call : Call) (m : Manager)
    → ¬ IsResetting call
    → m.state ≡ open_state
    → (step call m).state ≡ open_state
unfolding step report put_project trim_window maybe_trip allow_dispatch mark_manual
    enqueue_webhook_replay snapshot
state-step (reporting now scale p s success d x) m h e = e
state-step (reporting now scale p s rapid_fail d x) m h e = ground arith
state-step (reporting now scale p s slow_fail d x) m h e = e
state-step (asking now p s) m h e = ground arith
state-step (marking p) m h e = e
state-step (enqueuing p) m h e = ground arith
state-step (resetting now) m h e = absurd (h tt)
state-step (viewing now) m h e = e

marked-step :
    (project : String) (call : Call) (m : Manager)
    → ¬ IsMarking project call
    → (get_or_create_project project m).manual_pending ≡ false
    → (get_or_create_project project (step call m)).manual_pending ≡ false
unfolding step reported lookup
marked-step project (reporting now scale p s success d x) m h e =
    ground (arith, get-report now scale p s success d x m project, eq_iff p project)
marked-step project (reporting now scale p s rapid_fail d x) m h e =
    ground (arith, get-report now scale p s rapid_fail d x m project, eq_iff p project)
marked-step project (reporting now scale p s slow_fail d x) m h e =
    ground (arith, get-report now scale p s slow_fail d x m project, eq_iff p project)
marked-step project (asking now p s) m h e =
    ground (arith, get-allow_dispatch now p s m project, eq_iff p project)
marked-step project (marking p) m h e =
    ground (arith, get-mark_manual p m project, eq_iff p project)
marked-step project (enqueuing p) m h e =
    unfold enqueue_webhook_replay get_or_create_project in ground arith
marked-step project (resetting now) m h e = unfold reset get_or_create_project in refl
marked-step project (viewing now) m h e = unfold snapshot trim_window get_or_create_project in e

IsQuiet-call :
    (project : String) (call : Call) (calls : List Call)
    → IsQuiet project (call ∷ calls)
    → (¬ IsResetting call) × (¬ IsMarking project call) × IsQuiet project calls
IsQuiet-call project (marking p) calls h = (λ r. r, h.0, h.1)
IsQuiet-call project (resetting now) calls h = absurd h
IsQuiet-call project _ calls h = (λ r. r, λ r. r, h)

record IsShut (project : String) (m : Manager) : Type 0 where
  opened : m.state ≡ open_state
  unmarked : (get_or_create_project project m).manual_pending ≡ false

run-IsShut :
    (project : String) (calls : List Call) (m : Manager)
    → IsQuiet project calls
    → IsShut project m
    → IsShut project (run calls m)
unfolding run
run-IsShut project [] m q h = h
run-IsShut project (call ∷ calls) m q h =
    let parts = IsQuiet-call project call calls q in
    run-IsShut project calls (step call m) parts.2 (record {
      opened = state-step call m parts.0 h.opened;
      unmarked = marked-step project call m parts.1 h.unmarked;
    })

pub refused_when_open :
    (now : ℕ) (project : String) (source : Source) (m : Manager)
    → source ≢ manual
    → m.state ≡ open_state
    → (get_or_create_project project m).manual_pending ≡ false
    → (allow_dispatch now project source m).0
      ≡ record { allowed = false; retry_after = 0; reason = breaker_open }
unfolding allow_dispatch
refused_when_open now project source m s h u = ground arith

-- Once the breaker is open, and until a reset or a manual mark of the project, every cron and
-- webhook request for it is refused with "breaker_open", whatever else is called and however late.
pub open_breaker_refuses :
    (m : Manager) (project : String) (calls : List Call) (now : ℕ) (source : Source)
    → m.state ≡ open_state
    → (get_or_create_project project m).manual_pending ≡ false
    → IsQuiet project calls
    → source ≢ manual
    → (allow_dispatch now project source (run calls m)).0
      ≡ record { allowed = false; retry_after = 0; reason = breaker_open }
open_breaker_refuses m project calls now source e f quiet s =
    let shut = run-IsShut project calls m quiet (record { opened = e; unmarked = f }) in
    refused_when_open now project source (run calls m) s shut.opened shut.unmarked

-- No reset, and no request for this project.
abbrev pub IsUnasked : String → List Call → Type 0
IsUnasked project [] = Unit
IsUnasked project (resetting now ∷ calls) = ⊥
IsUnasked project (asking now other source ∷ calls) = (other ≢ project) × IsUnasked project calls
IsUnasked project (_ ∷ calls) = IsUnasked project calls

flag_kept :
    (project : String) (call : Call) (calls : List Call) (m : Manager)
    → IsUnasked project (call ∷ calls)
    → (get_or_create_project project m).manual_pending ≡ true
    → ((get_or_create_project project (step call m)).manual_pending ≡ true)
      × IsUnasked project calls
unfolding step reported
flag_kept project (reporting now scale p s success d x) calls m h e =
    (ground (arith, get-report now scale p s success d x m project, eq_iff p project), h)
flag_kept project (reporting now scale p s rapid_fail d x) calls m h e =
    (ground (arith, get-report now scale p s rapid_fail d x m project, eq_iff p project), h)
flag_kept project (reporting now scale p s slow_fail d x) calls m h e =
    (ground (arith, get-report now scale p s slow_fail d x m project, eq_iff p project), h)
flag_kept project (asking now p s) calls m h e =
    (ground (arith, get-allow_dispatch now p s m project, eq_iff p project), h.1)
flag_kept project (marking p) calls m h e =
    (ground (arith, get-mark_manual p m project, eq_iff p project), h)
flag_kept project (enqueuing p) calls m h e =
    (unfold enqueue_webhook_replay get_or_create_project in ground arith, h)
flag_kept project (resetting now) calls m h e = absurd h
flag_kept project (viewing now) calls m h e =
    (unfold snapshot trim_window get_or_create_project in e, h)

run-flag :
    (project : String) (calls : List Call) (m : Manager)
    → IsUnasked project calls
    → (get_or_create_project project m).manual_pending ≡ true
    → (get_or_create_project project (run calls m)).manual_pending ≡ true
unfolding run
run-flag project [] m u e = e
run-flag project (call ∷ calls) m u e =
    let kept = flag_kept project call calls m u e in
    run-flag project calls (step call m) kept.1 kept.0

-- A manual mark is kept through any calls that neither reset nor ask for the project, and the next
-- request for the project, by any source, is then allowed, open breaker and backoff or not.
pub mark_is_honoured :
    (m : Manager) (project : String) (calls : List Call) (now : ℕ) (source : Source)
    → IsUnasked project calls
    → (allow_dispatch now project source (run calls (mark_manual project m))).0 ≡ allow
mark_is_honoured m project calls now source unasked =
    allow_dispatch_marked now project source (run calls (mark_manual project m))
      (run-flag project calls (mark_manual project m) unasked (mark_manual-pending project m))
