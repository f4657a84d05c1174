-- ===== src/Resilience/Tests.antt =====
-- Runs of resilience.go on small inputs, and the theorems about it at concrete inputs.
use renovate_docker_operator.Prelude.{
  remove, ℕ, ◌<◌, ◌≢◌, put, String, ◌≡◌, refl, true, false, ◌↔◌, ◌⊎◌, ◌+◌, ◌-◌, inr, List, [], ◌∷◌,
  arith, pos, lookup, contains, min,
}
use renovate_docker_operator.Resilience.{
  cron, webhook, manual, success, rapid_fail, slow_fail, closed, open_state, Config, Manager,
  Decision, allow, breaker_open, project_backoff, with_defaults, new, is_open,
  get_or_create_project, put_project, raw_backoff, report, maybe_trip, trim_window, drop_before,
  allow_dispatch, mark_manual, enqueue_webhook_replay, snapshot, max_duration,
}
use renovate_docker_operator.Resilience.SingleShot.{Alike, unmarked, mark_manual_single_shot}
use renovate_docker_operator.Resilience.Gate.{
  BreakerPasses, BackoffPasses, allow_dispatch-allowed_iff, allow_dispatch-refused,
}
use renovate_docker_operator.Resilience.Backoff.{
  IsPositive, IsJittered, with_defaults-IsPositive, success_restores,
}
use renovate_docker_operator.Resilience.Trace.{
  Call, reporting, asking, enqueuing, viewing, step, run,
}
use renovate_docker_operator.Resilience.Breaker.{
  observe_all, nothing_seen, breaker_refines, snapshot_counts, in_window,
}
use renovate_docker_operator.Resilience.Safety.{open_breaker_refuses, mark_is_honoured}

-- A window of 100, two rapid failures trip it, and the queue holds one project.
abbrev small : Config
small = record {
  failure_min_runtime = pos 30;
  backoff_base = pos 10;
  backoff_max = pos 35;
  rapid_fail_window = pos 100;
  rapid_fail_threshold = pos 2;
  replay_queue_cap = pos 1;
}

-- No jitter.
abbrev plain : ℕ → ℕ
plain raw = raw

abbrev fail_at : ℕ → String → Call
fail_at now project = reporting now plain project cron rapid_fail 5 (pos 1)

abbrev far_apart : List Call
far_apart = fail_at 1000 "a" ∷ fail_at 1200 "b" ∷ []

abbrev close_together : List Call
close_together = fail_at 1000 "a" ∷ fail_at 1090 "b" ∷ []

far_apart_stays_closed : (run far_apart (new small)).state ≡ closed
unfolding run step new with_defaults report put_project trim_window maybe_trip drop_before
far_apart_stays_closed = refl

close_together_trips : (run close_together (new small)).state ≡ open_state
unfolding run step new with_defaults report put_project trim_window maybe_trip drop_before
close_together_trips = refl

breaker_refines_example :
    is_open (run close_together (new small)).state
    ≡ (observe_all (with_defaults small) close_together nothing_seen).tripped
breaker_refines_example = breaker_refines small close_together (omega arith)

snapshot_counts_example :
    (snapshot 1150 (run close_together (new small))).0.rapid_fail_count
    ≡ in_window
        (with_defaults small)
        1150
        (observe_all (with_defaults small) close_together nothing_seen).history
snapshot_counts_example = snapshot_counts small close_together (omega arith) 1150 (omega arith)

abbrev tripped : Manager
tripped = run close_together (new small)

unmarked_c : (get_or_create_project "c" tripped).manual_pending ≡ false
unfolding run step new with_defaults report put_project trim_window maybe_trip drop_before
    get_or_create_project lookup put
unmarked_c = refl

abbrev quiet : List Call
quiet = asking 2000 "c" webhook ∷ enqueuing "c" ∷ viewing 3000 ∷ []

open_breaker_refuses_example :
    (allow_dispatch 9000 "c" cron (run quiet tripped)).0
    ≡ record { allowed = false; retry_after = 0; reason = breaker_open }
open_breaker_refuses_example =
    open_breaker_refuses tripped "c" quiet 9000 cron close_together_trips unmarked_c tt (λ e. cc)

allow_dispatch-allowed_iff_example : ((allow_dispatch 9000 "c" cron tripped).0.allowed ≡ true) ↔ (
    ((get_or_create_project "c" tripped).manual_pending ≡ true)
    ⊎ (BreakerPasses cron tripped × BackoffPasses 9000 (get_or_create_project "c" tripped)))
allow_dispatch-allowed_iff_example = allow_dispatch-allowed_iff 9000 "c" cron tripped

c_refused : (allow_dispatch 9000 "c" cron tripped).0.allowed ≡ false
unfolding run step new with_defaults report put_project trim_window maybe_trip drop_before
    get_or_create_project lookup put allow_dispatch
c_refused = refl

abbrev decision_c : Decision
decision_c = (allow_dispatch 9000 "c" cron tripped).0

allow_dispatch-refused_example :
    ((decision_c.reason ≡ breaker_open)
      × (decision_c.retry_after ≡ 0)
      × (tripped.state ≡ open_state)
      × (cron ≢ manual))
    ⊎ ((decision_c.reason ≡ project_backoff)
        × (decision_c.retry_after
            ≡ min ((get_or_create_project "c" tripped).next_allowed_at - 9000) max_duration)
        × (9000 < (get_or_create_project "c" tripped).next_allowed_at)
        × BreakerPasses cron tripped)
allow_dispatch-refused_example = allow_dispatch-refused 9000 "c" cron tripped c_refused

mark_is_honoured_example :
    (allow_dispatch 9000 "c" webhook (run (fail_at 1200 "c" ∷ []) (mark_manual "c" tripped))).0
    ≡ allow
mark_is_honoured_example = mark_is_honoured tripped "c" (fail_at 1200 "c" ∷ []) 9000 webhook tt

mark_manual_single_shot_example :
    let first = allow_dispatch 2000 "c" webhook (mark_manual "c" tripped) in
    (first.0 ≡ allow)
    × (first.1.pending_replay ≡ remove "c" tripped.pending_replay)
    × Alike (unmarked "c" tripped) first.1
    × ((allow_dispatch 2001 "c" webhook (run (fail_at 2000 "c" ∷ []) first.1)).0
        ≡ (allow_dispatch 2001 "c" webhook (run (fail_at 2000 "c" ∷ []) (unmarked "c" tripped))).0)
mark_manual_single_shot_example =
    mark_manual_single_shot "c" tripped 2000 webhook (fail_at 2000 "c" ∷ []) 2001 "c" webhook

plain-IsJittered : IsJittered (new small).cfg.backoff_max plain
plain-IsJittered raw h = (omega arith, omega arith)

new_unmarked : (get_or_create_project "a" (new small)).manual_pending ≡ false
unfolding new get_or_create_project lookup
new_unmarked = refl

first_wait :
    raw_backoff (new small).cfg ((get_or_create_project "a" (new small)).consecutive_failures + 1)
    ≡ 10
unfolding new with_defaults get_or_create_project lookup raw_backoff
first_wait = refl

still_closed : (report 1000 plain "a" cron slow_fail 40 (pos 1) (new small)).state ≡ closed
unfolding new report put_project
still_closed = refl

success_closed : (report 1001 plain "a" cron success 40 (pos 0) (new small)).state ≡ closed
unfolding new report put_project
success_closed = refl

success_restores_example :
    (allow_dispatch 1001 "a" cron
      (report 1001 plain "a" cron success 40 (pos 0) (new small))).0.allowed
    ≡ true
success_restores_example =
    success_restores 1001 plain "a" cron 40 (pos 0) (new small) 1001 cron (inr success_closed)

with_defaults-IsPositive_example : IsPositive (with_defaults small)
with_defaults-IsPositive_example = with_defaults-IsPositive small

c_accepted : (enqueue_webhook_replay "c" tripped).0 ≡ false
unfolding run step new with_defaults report put_project trim_window maybe_trip drop_before
    enqueue_webhook_replay contains
c_accepted = refl
