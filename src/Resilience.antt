-- ===== src/Resilience.antt =====
-- internal/resilience/resilience.go: circuit breaker, per-project backoff, manual bypass and the
-- webhook replay queue. Every exported method runs under one mutex, so a method is a function of
-- the Manager, and an execution is a sequence of calls.
-- An instant is a number of nanoseconds since Go's zero time, so 0 is `time.Time{}`; the clock
-- (Config.Clock) is read once by each method, and its reading `now` is an argument here.
pub mod Projects
pub mod Window
pub mod Gate
pub mod Breaker
pub mod Backoff
pub mod Replay
pub mod SingleShot
pub mod Trace
pub mod Safety
mod Tests
use renovate_docker_operator.Prelude.{
  ℕ, zero, suc, ◌+◌, ◌-◌, ◌*◌, ◌/◌, ◌^◌, min, String, Bool, true, false, not, ◌&&◌, Option, none,
  some, List, [], ◌∷◌, ◌++◌, map, ℤ, pos, negsuc, ltb, leb, ◌==◌, if◌then◌else◌, length, count_if,
  Dict, lookup, put, contains, remove,
}

pub data State : Type 0 where
  closed open_state : State

pub data Source : Type 0 where
  cron webhook manual : Source

pub data Outcome : Type 0 where
  success rapid_fail slow_fail : Outcome

abbrev pub discovery_project : String
discovery_project = "__discovery__"

-- Config as the caller gives it: durations in nanoseconds and counts, zero or negative for
-- "use the default". The clock and the random source are arguments of the operations.
pub record Config : Type 0 where
  pub failure_min_runtime : ℤ
  pub backoff_base : ℤ
  pub backoff_max : ℤ
  pub rapid_fail_window : ℤ
  pub rapid_fail_threshold : ℤ
  pub replay_queue_cap : ℤ

-- Config after `withDefaults`: every field is positive.
pub record Resolved : Type 0 where
  pub failure_min_runtime : ℕ
  pub backoff_base : ℕ
  pub backoff_max : ℕ
  pub rapid_fail_window : ℕ
  pub rapid_fail_threshold : ℕ
  pub replay_queue_cap : ℕ

abbrev pub second : ℕ
second = 1000000000

-- `if v <= 0 { v = d }`
or_default : ℤ → ℕ → ℕ
or_default (pos zero) d = d
or_default (pos (suc n)) d = suc n
or_default (negsuc n) d = d

unfoldable pub with_defaults : Config → Resolved
unfolding or_default
with_defaults c = record {
  failure_min_runtime = or_default c.failure_min_runtime (30 * second);
  backoff_base = or_default c.backoff_base (30 * second);
  backoff_max = or_default c.backoff_max (30 * 60 * second);
  rapid_fail_window = or_default c.rapid_fail_window (5 * 60 * second);
  rapid_fail_threshold = or_default c.rapid_fail_threshold 10;
  replay_queue_cap = or_default c.replay_queue_cap 10000;
}

pub record ProjectState : Type 0 where
  pub consecutive_failures : ℕ
  pub next_allowed_at : ℕ
  pub last_exit_code : ℤ
  pub last_report_at : ℕ
  pub manual_pending : Bool

-- `open_reason` holds the two values that the text "%d rapid failures within %s" is printed from;
-- `none` is the empty text. `pending_replay` is a set of keys.
pub record Manager : Type 0 where
  pub cfg : Resolved
  pub projects : Dict ProjectState
  pub rapid_fails : List ℕ
  pub state : State
  pub open_since : ℕ
  pub open_reason : Option (ℕ × ℕ)
  pub pending_replay : List String
  pub last_reset : ℕ
  pub last_tripped : ℕ

unfoldable pub new : Config → Manager
new c = record {
  cfg = with_defaults c;
  projects = [];
  rapid_fails = [];
  state = closed;
  open_since = 0;
  open_reason = none;
  pending_replay = [];
  last_reset = 0;
  last_tripped = 0;
}

-- &projectState{}
abbrev pub fresh : ProjectState
fresh = record {
  consecutive_failures = 0;
  next_allowed_at = 0;
  last_exit_code = pos 0;
  last_report_at = 0;
  manual_pending = false;
}

-- The state of a project, the zero state if it has none.
abbrev pub or_fresh : Option ProjectState → ProjectState
or_fresh none = fresh
or_fresh (some ps) = ps

-- getOrCreateProject returns a pointer into the map: the caller's writes go through `put_project`.
unfoldable pub get_or_create_project : String → Manager → ProjectState
get_or_create_project project m = or_fresh (lookup project m.projects)

unfoldable pub put_project : String → ProjectState → Manager → Manager
put_project project ps m = record m { projects = put project ps m.projects }

-- base * 2^(failures - 1) capped at max, which float64 computes exactly below 2^53 ns (104 days).
unfoldable pub raw_backoff : Resolved → ℕ → ℕ
raw_backoff cfg failures =
    let raw = cfg.backoff_base * 2 ^ (failures - 1) in
    if ltb cfg.backoff_max raw then cfg.backoff_max else raw

-- `scale raw` stands for `time.Duration(raw * jitter)` at this call's draw of the random source.
unfoldable pub compute_backoff : Resolved → (ℕ → ℕ) → ℕ → ℕ
unfolding raw_backoff
compute_backoff cfg scale failures = if failures == 0 then 0 else scale (raw_backoff cfg failures)

-- rapidFails[i:] for the first i that is not before the cutoff.
unfoldable pub drop_before : ℕ → List ℕ → List ℕ
drop_before cutoff [] = []
drop_before cutoff (t ∷ ts) =
    let rest = drop_before cutoff ts in if ltb t cutoff then rest else t ∷ ts

-- `-` on ℕ stops at 0: no instant is before a cutoff that would be negative, nor before 0.
unfoldable pub trim_window : ℕ → Manager → Manager
trim_window now m = record m {
  rapid_fails = drop_before (now - m.cfg.rapid_fail_window) m.rapid_fails;
}

trip : ℕ → State → Manager → Manager
trip now open_state m = m
trip now closed m =
    if leb m.cfg.rapid_fail_threshold (length m.rapid_fails)
    then record m {
      state = open_state;
      open_since = now;
      open_reason = some (length m.rapid_fails, m.cfg.rapid_fail_window);
      last_tripped = now;
    }
    else m

unfoldable pub maybe_trip : ℕ → Manager → Manager
unfolding trip
maybe_trip now m = trip now m.state m

-- ps.consecutiveFailures++; ps.nextAllowedAt = now.Add(m.computeBackoff(...))
count_failure : Resolved → ℕ → (ℕ → ℕ) → ProjectState → ProjectState
unfolding compute_backoff
count_failure cfg now scale ps = record ps {
  consecutive_failures = ps.consecutive_failures + 1;
  next_allowed_at = now + compute_backoff cfg scale (ps.consecutive_failures + 1);
}

-- The `switch outcome` of Report.
report_outcome : Outcome → ℕ → (ℕ → ℕ) → String → ProjectState → Manager → Manager
unfolding count_failure
report_outcome success now scale project ps m =
    put_project project (record ps { consecutive_failures = 0; next_allowed_at = 0 }) m
report_outcome rapid_fail now scale project ps m =
    let m1 = put_project project (count_failure m.cfg now scale ps) m in
    maybe_trip now (trim_window now (record m1 { rapid_fails = m1.rapid_fails ++ now ∷ [] }))
report_outcome slow_fail now scale project ps m =
    put_project project (count_failure m.cfg now scale ps) m

-- Report ignores its source and duration.
unfoldable pub report :
    (now : ℕ) (scale : ℕ → ℕ) (project : String) (source : Source) (outcome : Outcome)
    (duration : ℕ) (exit_code : ℤ)
    → Manager
    → Manager
unfolding report_outcome
report now scale project source outcome duration exit_code m =
    let ps = get_or_create_project project m in
    report_outcome outcome now scale project
      (record ps { last_exit_code = exit_code; last_report_at = now }) m

-- The reason that AllowDispatch gives, "" being `no_reason`.
pub data Reason : Type 0 where
  no_reason breaker_open project_backoff : Reason

pub record Decision : Type 0 where
  pub allowed : Bool
  pub retry_after : ℕ
  pub reason : Reason

abbrev pub allow : Decision
allow = record { allowed = true; retry_after = 0; reason = no_reason }

abbrev pub is_manual : Source → Bool
is_manual manual = true
is_manual _ = false

abbrev pub is_open : State → Bool
is_open open_state = true
is_open closed = false

-- Time.Sub saturates at the largest Duration.
abbrev pub max_duration : ℕ
max_duration = 9223372036854775807

drain_replay : String → Manager → Manager
drain_replay project m = record m { pending_replay = remove project m.pending_replay }

unfoldable pub allow_dispatch :
    (now : ℕ) (project : String) (source : Source) → Manager → Decision × Manager
unfolding drain_replay
allow_dispatch now project source m =
    let ps = get_or_create_project project m in
    let m1 = put_project project ps m in
    if ps.manual_pending
    then (
      allow,
      drain_replay project (put_project project (record ps { manual_pending = false }) m),
    )
    else (if not (is_manual source) && is_open m.state
        then (record { allowed = false; retry_after = 0; reason = breaker_open }, m1)
        else (if not (ps.next_allowed_at == 0) && ltb now ps.next_allowed_at
            then (
              record {
                allowed = false;
                retry_after = min (ps.next_allowed_at - now) max_duration;
                reason = project_backoff;
              },
              m1,
            )
            else (allow, drain_replay project m1)))

unfoldable pub mark_manual : String → Manager → Manager
mark_manual project m =
    put_project project (record (get_or_create_project project m) { manual_pending = true }) m

-- The error is ErrReplayQueueFull: `true` where it is returned.
unfoldable pub enqueue_webhook_replay : String → Manager → Bool × Manager
enqueue_webhook_replay project m =
    if contains project m.pending_replay
    then (false, m)
    else (if leb m.cfg.replay_queue_cap (length m.pending_replay)
        then (true, m)
        else (false, record m { pending_replay = m.pending_replay ++ project ∷ [] }))

pub record ResetSummary : Type 0 where
  pub previous_state : State
  pub replayed_projects : List String
  pub cleared_backoffs : ℕ

abbrev pub has_backoff : String × ProjectState → Bool
has_backoff entry = ltb 0 entry.1.consecutive_failures

unfoldable pub reset : (now : ℕ) → Manager → ResetSummary × Manager
reset now m = (
  record {
    previous_state = m.state;
    replayed_projects = m.pending_replay;
    cleared_backoffs = count_if has_backoff m.projects;
  },
  record m {
    state = closed;
    open_since = 0;
    open_reason = none;
    rapid_fails = [];
    pending_replay = [];
    projects = [];
    last_reset = now;
  },
)

pub record Snapshot : Type 0 where
  pub state : State
  pub open_since : ℕ
  pub open_reason : Option (ℕ × ℕ)
  pub rapid_fail_count : ℕ
  pub window_seconds : ℕ
  pub pending_replay_count : ℕ
  pub last_reset : ℕ
  pub last_tripped : ℕ
  pub projects : Dict ProjectState

-- rapidFailCount trims the window of the Manager itself. A ProjectSnapshot has the fields of the
-- project's state and its key.
unfoldable pub snapshot : (now : ℕ) → Manager → Snapshot × Manager
snapshot now m =
    let m1 = trim_window now m in
    (
      record {
        state = m1.state;
        open_since = m1.open_since;
        open_reason = m1.open_reason;
        rapid_fail_count = length m1.rapid_fails;
        window_seconds = m1.cfg.rapid_fail_window / second;
        pending_replay_count = length m1.pending_replay;
        last_reset = m1.last_reset;
        last_tripped = m1.last_tripped;
        projects = m1.projects;
      },
      m1,
    )
