-- ===== src/Resilience/Gate.antt =====
-- AllowDispatch of resilience.go: when a dispatch is allowed, and why it is refused.
use renovate_docker_operator.Prelude.{
  ℕ, ◌-◌, ◌≤◌, ◌<◌, String, ◌≡◌, ◌≢◌, ◌↔◌, ◌⊎◌, refl, true, false, ◌&&◌, arith, str_eq, eq_refl,
  if◌then◌else◌, contains, contains-remove, min,
}
use renovate_docker_operator.Resilience.{
  Source, manual, closed, open_state, ProjectState, Manager, allow, breaker_open, project_backoff,
  get_or_create_project, put_project, allow_dispatch, mark_manual, max_duration,
}
use renovate_docker_operator.Resilience.Projects.{get-mark_manual}

abbrev pub BreakerPasses : Source → Manager → Type 0
BreakerPasses source m = (source ≡ manual) ⊎ (m.state ≡ closed)

abbrev pub BackoffPasses : ℕ → ProjectState → Type 0
BackoffPasses now ps = (ps.next_allowed_at ≡ 0) ⊎ (ps.next_allowed_at ≤ now)

-- A dispatch is allowed exactly when the manual flag is set, or the breaker gate (which a manual
-- source passes) and the backoff gate both pass.
pub allow_dispatch-allowed_iff :
    (now : ℕ) (project : String) (source : Source) (m : Manager)
    → ((allow_dispatch now project source m).0.allowed ≡ true) ↔ (
        ((get_or_create_project project m).manual_pending ≡ true)
        ⊎ (BreakerPasses source m × BackoffPasses now (get_or_create_project project m)))
unfolding allow_dispatch
allow_dispatch-allowed_iff now project source m = (λ h. ground arith, λ h. ground arith)

-- A refusal names its gate: an open breaker with no time to wait, or the project's own backoff with
-- the time that is left, and then the breaker gate has passed.
pub allow_dispatch-refused :
    (now : ℕ) (project : String) (source : Source) (m : Manager)
    → (allow_dispatch now project source m).0.allowed ≡ false
    → let d = (allow_dispatch now project source m).0 in
      let ps = get_or_create_project project m in
      ((d.reason ≡ breaker_open) × (d.retry_after ≡ 0) × (m.state ≡ open_state) × (source ≢ manual))
      ⊎ ((d.reason ≡ project_backoff)
          × (d.retry_after ≡ min (ps.next_allowed_at - now) max_duration)
          × (now < ps.next_allowed_at)
          × BreakerPasses source m)
unfolding allow_dispatch
allow_dispatch-refused now project source m h = ground arith

-- An allowed dispatch takes its project off the replay queue; a refused one leaves the queue.
pub pending-allow_dispatch :
    (now : ℕ) (project : String) (source : Source) (m : Manager) (j : String)
    → contains j (allow_dispatch now project source m).1.pending_replay ≡ (
        if (allow_dispatch now project source m).0.allowed && str_eq project j
        then false
        else contains j m.pending_replay)
unfolding allow_dispatch put_project
pending-allow_dispatch now project source m j =
    ground (arith, contains-remove project j m.pending_replay)

-- The decision reads the breaker state and the state of the project, nothing else.
pub allow_dispatch_local :
    (now : ℕ) (project : String) (source : Source) (m m' : Manager)
    → m'.state ≡ m.state
    → get_or_create_project project m' ≡ get_or_create_project project m
    → (allow_dispatch now project source m').0 ≡ (allow_dispatch now project source m).0
unfolding allow_dispatch
allow_dispatch_local now project source m m' e f = ground arith

pub state-allow_dispatch :
    (now : ℕ) (project : String) (source : Source) (m : Manager)
    → (allow_dispatch now project source m).1.state ≡ m.state
unfolding allow_dispatch put_project
state-allow_dispatch now project source m = ground arith

state-mark_manual : (project : String) (m : Manager) → (mark_manual project m).state ≡ m.state
unfolding mark_manual put_project
state-mark_manual project m = refl

pub allow_dispatch_marked :
    (now : ℕ) (project : String) (source : Source) (m : Manager)
    → (get_or_create_project project m).manual_pending ≡ true
    → (allow_dispatch now project source m).0 ≡ allow
unfolding allow_dispatch
allow_dispatch_marked now project source m h = ground arith

pub mark_manual-pending :
    (project : String) (m : Manager)
    → (get_or_create_project project (mark_manual project m)).manual_pending ≡ true
mark_manual-pending project m = rw (get-mark_manual project m project, eq_refl project)
