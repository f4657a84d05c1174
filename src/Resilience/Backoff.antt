-- ===== src/Resilience/Backoff.antt =====
-- computeBackoff and the backoff side of Report in resilience.go: exponential growth, the cap, the
-- jitter, and what they mean for AllowDispatch.
use renovate_docker_operator.Prelude.{
  ℕ, suc, ◌+◌, ◌-◌, ◌*◌, ◌^◌, ◌≤◌, ◌<◌, String, ◌≡◌, inl, inr, true, false, arith, ℤ, eq_refl, min,
  not_true,
}
use native.Mathlib.Nat.{pow-suc, one-le-pow}
use renovate_docker_operator.Resilience.{
  Source, Outcome, success, rapid_fail, slow_fail, Config, Resolved, ProjectState, Manager,
  or_default, with_defaults, get_or_create_project, raw_backoff, compute_backoff, report,
  allow_dispatch,
}
use renovate_docker_operator.Resilience.Projects.{reported, get-report}
use renovate_docker_operator.Resilience.Gate.{
  BreakerPasses, BackoffPasses, allow_dispatch-allowed_iff,
}

pub record IsPositive (c : Resolved) : Type 0 where
  pub min_runtime : 0 < c.failure_min_runtime
  pub base : 0 < c.backoff_base
  pub max : 0 < c.backoff_max
  pub window : 0 < c.rapid_fail_window
  pub threshold : 0 < c.rapid_fail_threshold
  pub queue_cap : 0 < c.replay_queue_cap

-- Whatever the caller leaves out or gets wrong, the resolved configuration is positive throughout.
pub with_defaults-IsPositive : (c : Config) → IsPositive (with_defaults c)
unfolding with_defaults or_default
with_defaults-IsPositive c = ground arith

-- The random factor lies in [0.8, 1.2) and the product is cut off to whole nanoseconds.
abbrev pub IsJittered : ℕ → (ℕ → ℕ) → Type 0
IsJittered bound scale =
    (raw : ℕ) → raw ≤ bound → (4 * raw < 5 * (scale raw + 1)) × (5 * scale raw ≤ 6 * raw)

raw_backoff-le : (c : Resolved) (n : ℕ) → raw_backoff c n ≤ c.backoff_max
unfolding raw_backoff
raw_backoff-le c n = ground arith

-- What the doubling is capped to: base * 2^n after n + 1 failures.
raw_backoff-suc_lem :
    (c : Resolved) (n : ℕ) → raw_backoff c (suc n) ≡ min (c.backoff_base * 2 ^ n) c.backoff_max
unfolding raw_backoff
raw_backoff-suc_lem c n = let e : suc n - 1 ≡ n = omega arith in rw e (ground arith)

-- The first failure waits the base, each further one doubles the wait until it meets the cap, and
-- the wait (before jitter) is never zero under a resolved configuration.
pub raw_backoff_doubles :
    (c : Resolved) (n : ℕ)
    → IsPositive c
    → (raw_backoff c 1 ≡ min c.backoff_base c.backoff_max)
      × (raw_backoff c (suc (suc n)) ≡ min (2 * raw_backoff c (suc n)) c.backoff_max)
      × (0 < raw_backoff c (suc n))
raw_backoff_doubles c n positive = (
  rw (raw_backoff-suc_lem c 0) (omega arith),
  rw (raw_backoff-suc_lem c (suc n), raw_backoff-suc_lem c n, pow-suc 2 n) (omega arith),
  rw (raw_backoff-suc_lem c n) (grind (arith, one-le-pow n 2 (omega arith), positive)),
)

abbrev pub IsFailure : Outcome → Type 0
IsFailure success = ⊥
IsFailure _ = Unit

next-report :
    (now : ℕ) (scale : ℕ → ℕ) (project : String) (source : Source) (outcome : Outcome)
    (duration : ℕ) (code : ℤ) (m : Manager)
    → IsFailure outcome
    → (get_or_create_project project
        (report now scale project source outcome duration code m)).next_allowed_at
      ≡ now + scale (raw_backoff m.cfg ((get_or_create_project project m).consecutive_failures + 1))
unfolding reported compute_backoff
next-report now scale project source success duration code m f = absurd f
next-report now scale project source rapid_fail duration code m f =
    rw (get-report now scale project source rapid_fail duration code m project, eq_refl project)
      (ground arith)
next-report now scale project source slow_fail duration code m f =
    rw (get-report now scale project source slow_fail duration code m project, eq_refl project)
      (ground arith)

manual-report :
    (now : ℕ) (scale : ℕ → ℕ) (project : String) (source : Source) (outcome : Outcome)
    (duration : ℕ) (code : ℤ) (m : Manager)
    → (get_or_create_project project
        (report now scale project source outcome duration code m)).manual_pending
      ≡ (get_or_create_project project m).manual_pending
unfolding reported
manual-report now scale project source success duration code m =
    rw (get-report now scale project source success duration code m project, eq_refl project)
manual-report now scale project source rapid_fail duration code m =
    rw (get-report now scale project source rapid_fail duration code m project, eq_refl project)
manual-report now scale project source slow_fail duration code m =
    rw (get-report now scale project source slow_fail duration code m project, eq_refl project)

-- The backoff gate at an instant, for a wait within 20% of `raw`.
gate_of_wait :
    (now wait raw later : ℕ) (ps : ProjectState)
    → ps.next_allowed_at ≡ now + wait
    → 4 * raw < 5 * (wait + 1)
    → 5 * wait ≤ 6 * raw
    → (5 * (later + 1) ≤ 5 * now + 4 * raw → ¬ BackoffPasses later ps)
      × (5 * now + 6 * raw ≤ 5 * later → BackoffPasses later ps)
gate_of_wait now wait raw later ps e low high = (λ h. ground arith, λ h. inr (omega arith))

-- A failure of a project sets its backoff gate: shut until 80% of the wait before jitter for the new
-- number of failures has passed, and no longer than 120% of it.
backoff_after_failure :
    (now : ℕ) (scale : ℕ → ℕ) (project : String) (source : Source) (outcome : Outcome)
    (duration : ℕ) (code : ℤ) (m : Manager) (later : ℕ)
    → IsFailure outcome
    → IsJittered m.cfg.backoff_max scale
    → let ps =
        get_or_create_project project (report now scale project source outcome duration code m) in
      let raw = raw_backoff m.cfg ((get_or_create_project project m).consecutive_failures + 1) in
      (5 * (later + 1) ≤ 5 * now + 4 * raw → ¬ BackoffPasses later ps)
      × (5 * now + 6 * raw ≤ 5 * later → BackoffPasses later ps)
backoff_after_failure now scale project source outcome duration code m later f jit =
    let m' = report now scale project source outcome duration code m in
    let raw = raw_backoff m.cfg ((get_or_create_project project m).consecutive_failures + 1) in
    let bounds = jit raw (raw_backoff-le m.cfg _) in
    gate_of_wait now (scale raw) raw later (get_or_create_project project m')
      (next-report now scale project source outcome duration code m f) bounds.0 bounds.1

-- Once a project that is not marked has failed, every request for it is refused until 80% has passed
-- of the wait before jitter for its new number of consecutive failures.
pub failure_blocks :
    (now : ℕ) (scale : ℕ → ℕ) (project : String) (source : Source) (outcome : Outcome)
    (duration : ℕ) (code : ℤ) (m : Manager) (later : ℕ) (asking : Source)
    → IsFailure outcome
    → IsJittered m.cfg.backoff_max scale
    → (get_or_create_project project m).manual_pending ≡ false
    → 5 * (later + 1)
      ≤ 5 * now + 4 * raw_backoff m.cfg ((get_or_create_project project m).consecutive_failures + 1)
    → (allow_dispatch later project asking
        (report now scale project source outcome duration code m)).0.allowed
      ≡ false
failure_blocks now scale project source outcome duration code m later asking f jit clear early =
    let m' = report now scale project source outcome duration code m in
    let gate = backoff_after_failure now scale project source outcome duration code m later f jit in
    let unmarked = manual-report now scale project source outcome duration code m in
    not_true _ (λ granted. elim ((allow_dispatch-allowed_iff later project asking m').0 granted) [
      | inl marked ↦ cc
      | inr passed ↦ gate.0 early passed.1
    ])

-- Once 120% of that wait has passed, only the breaker can refuse the project.
pub failure_expires :
    (now : ℕ) (scale : ℕ → ℕ) (project : String) (source : Source) (outcome : Outcome)
    (duration : ℕ) (code : ℤ) (m : Manager) (later : ℕ) (asking : Source)
    → IsFailure outcome
    → IsJittered m.cfg.backoff_max scale
    → BreakerPasses asking (report now scale project source outcome duration code m)
    → 5 * now + 6 * raw_backoff m.cfg ((get_or_create_project project m).consecutive_failures + 1)
      ≤ 5 * later
    → (allow_dispatch later project asking
        (report now scale project source outcome duration code m)).0.allowed
      ≡ true
failure_expires now scale project source outcome duration code m later asking f jit passes late =
    let m' = report now scale project source outcome duration code m in
    let gate = backoff_after_failure now scale project source outcome duration code m later f jit in
    (allow_dispatch-allowed_iff later project asking m').1 (inr (passes, gate.1 late))

next-success :
    (now : ℕ) (scale : ℕ → ℕ) (project : String) (source : Source) (duration : ℕ) (code : ℤ)
    (m : Manager)
    → (get_or_create_project project
        (report now scale project source success duration code m)).next_allowed_at
      ≡ 0
unfolding reported
next-success now scale project source duration code m =
    rw (get-report now scale project source success duration code m project, eq_refl project)

-- A success ends the backoff: from then on only the breaker can refuse the project.
pub success_restores :
    (now : ℕ) (scale : ℕ → ℕ) (project : String) (source : Source) (duration : ℕ) (code : ℤ)
    (m : Manager) (later : ℕ) (asking : Source)
    → BreakerPasses asking (report now scale project source success duration code m)
    → (allow_dispatch later project asking
        (report now scale project source success duration code m)).0.allowed
      ≡ true
success_restores now scale project source duration code m later asking passes =
    (allow_dispatch-allowed_iff later project asking _).1
      (inr (passes, inl (next-success now scale project source duration code m)))
