-- ===== src/Resilience/Replay.antt =====
-- The webhook replay queue and Reset of resilience.go: the queue is a bounded set, nothing queued is
-- lost before it is dispatched or handed back by a reset, and a reset is a clean slate.
use renovate_docker_operator.Prelude.{
  ℕ, ◌≤◌, String, ◌≡◌, ◌↔◌, true, false, ◌||◌, ◌&&◌, not, List, [], ◌∷◌, arith, str_eq, eq_iff,
  length, length-append, length-remove, contains, contains-append, eq_refl, lookup,
}
use renovate_docker_operator.Resilience.{
  Source, success, rapid_fail, slow_fail, Config, Manager, closed, allow, new, put_project,
  get_or_create_project, report, allow_dispatch, mark_manual, enqueue_webhook_replay, reset,
  snapshot, trim_window, maybe_trip,
}
use renovate_docker_operator.Resilience.Gate.{pending-allow_dispatch}
use renovate_docker_operator.Resilience.Trace.{
  Call, reporting, asking, marking, enqueuing, resetting, viewing, step, run, run_induction,
}

-- The error is returned exactly when the project is new to a full queue. Nothing but the queue
-- changes, and the queue gains the project, unless the error is returned, and nobody else.
pub enqueue_webhook_replay_lem :
    (project : String) (m : Manager) (j : String)
    → let failed = (enqueue_webhook_replay project m).0 in
      let m' = (enqueue_webhook_replay project m).1 in
      ((failed ≡ true) ↔ (
        (contains project m.pending_replay ≡ false)
        × (m.cfg.replay_queue_cap ≤ length m.pending_replay)))
      × (m' ≡ record m { pending_replay = m'.pending_replay })
      × (contains j m'.pending_replay
          ≡ (contains j m.pending_replay || not failed && str_eq project j))
unfolding enqueue_webhook_replay contains
enqueue_webhook_replay_lem project m j = (
  (λ h. ground arith, λ h. ground arith),
  ground arith,
  ground (arith, contains-append j m.pending_replay (project ∷ []), eq_iff project j),
)

pub record IsBounded (m : Manager) : Type 0 where
  pub fits : length m.pending_replay ≤ m.cfg.replay_queue_cap

step-IsBounded : (call : Call) (m : Manager) → IsBounded m → IsBounded (step call m)
unfolding step report put_project trim_window maybe_trip allow_dispatch mark_manual
    enqueue_webhook_replay snapshot reset
step-IsBounded (reporting now scale p s success d x) m h = record { fits = h.fits }
step-IsBounded (reporting now scale p s rapid_fail d x) m h = ground arith
step-IsBounded (reporting now scale p s slow_fail d x) m h = record { fits = h.fits }
step-IsBounded (asking now p s) m h = ground (arith, length-remove p m.pending_replay)
step-IsBounded (marking p) m h = record { fits = h.fits }
step-IsBounded (enqueuing p) m h = ground (arith, length-append m.pending_replay (p ∷ []))
step-IsBounded (resetting now) m h = record { fits = omega arith }
step-IsBounded (viewing now) m h = record { fits = h.fits }

-- However many webhooks arrive, the replay queue never holds more than its cap.
pub replay_queue_bounded :
    (c : Config) (calls : List Call)
    → length (run calls (new c)).pending_replay ≤ (run calls (new c)).cfg.replay_queue_cap
replay_queue_bounded c calls =
    (run_induction IsBounded step-IsBounded calls (new c)
      (unfold new in record { fits = omega arith })).fits

-- No reset, and every request for this project is refused.
abbrev pub IsUndispatched : String → List Call → Manager → Type 0
IsUndispatched project [] m = Unit
IsUndispatched project (resetting now ∷ calls) m = ⊥
IsUndispatched project (asking now other source ∷ calls) m =
    (other ≡ project → (allow_dispatch now other source m).0.allowed ≡ false)
    × IsUndispatched project calls (step (asking now other source) m)
IsUndispatched project (call ∷ calls) m = IsUndispatched project calls (step call m)

queued-step :
    (project : String) (call : Call) (calls : List Call) (m : Manager)
    → IsUndispatched project (call ∷ calls) m
    → contains project m.pending_replay ≡ true
    → (contains project (step call m).pending_replay ≡ true)
      × IsUndispatched project calls (step call m)
unfolding step report put_project trim_window maybe_trip mark_manual enqueue_webhook_replay snapshot
queued-step project (reporting now scale p s success d x) calls m u h = (h, u)
queued-step project (reporting now scale p s rapid_fail d x) calls m u h = (ground arith, u)
queued-step project (reporting now scale p s slow_fail d x) calls m u h = (h, u)
queued-step project (asking now p s) calls m u h =
    (ground (arith, pending-allow_dispatch now p s m project, eq_iff p project, u.0), u.1)
queued-step project (marking p) calls m u h = (h, u)
queued-step project (enqueuing p) calls m u h =
    (ground (arith, contains-append project m.pending_replay (p ∷ [])), u)
queued-step project (resetting now) calls m u h = absurd u
queued-step project (viewing now) calls m u h = (h, u)

run-queued :
    (project : String) (calls : List Call) (m : Manager)
    → IsUndispatched project calls m
    → contains project m.pending_replay ≡ true
    → contains project (run calls m).pending_replay ≡ true
unfolding run
run-queued project [] m u h = h
run-queued project (call ∷ calls) m u h =
    let kept = queued-step project call calls m u h in
    run-queued project calls (step call m) kept.1 kept.0

-- A webhook that was accepted for replay is not lost: as long as no request for its project is
-- allowed, the next reset hands the project back to the caller.
pub queued_until_dispatched :
    (m : Manager) (project : String) (calls : List Call) (now : ℕ)
    → (enqueue_webhook_replay project m).0 ≡ false
    → IsUndispatched project calls (enqueue_webhook_replay project m).1
    → contains project
        (reset now (run calls (enqueue_webhook_replay project m).1)).0.replayed_projects
      ≡ true
unfolding reset
queued_until_dispatched m project calls now accepted undispatched =
    run-queued project calls (enqueue_webhook_replay project m).1 undispatched
      (ground (arith, enqueue_webhook_replay_lem project m project, eq_refl project))

-- A reset closes the breaker, empties the queue and forgets every project: any request by any
-- source is then allowed, whatever the state before, and a further reset has nothing to hand back.
pub reset_clean_slate :
    (m : Manager) (now later : ℕ) (project : String) (source : Source)
    → let m' = (reset now m).1 in
      ((allow_dispatch later project source m').0 ≡ allow)
      × ((reset now m).0.previous_state ≡ m.state)
      × ((reset later m').0
          ≡ record { previous_state = closed; replayed_projects = []; cleared_backoffs = 0 })
      × (m'.last_reset ≡ now)
      × (m'.last_tripped ≡ m.last_tripped)
unfolding reset allow_dispatch get_or_create_project lookup put_project
reset_clean_slate m now later project source = ground arith
