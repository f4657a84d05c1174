-- ===== src/StateStore/Settings/Freshness.antt =====
-- isStandardWebhookTimestampFresh of internal/statestore/sqlite.go: which timestamps it lets pass.
use renovate_docker_operator.Prelude.{
  ℕ, ◌+◌, ◌*◌, ◌≤◌, ◌<◌, ◌≡◌, ◌↔◌, ◌⊎◌, true, ℤ, pos, negsuc, arith,
}
use renovate_docker_operator.Resilience.{second, max_duration}
use renovate_docker_operator.StateStore.Settings.{
  tolerance, unix_to_internal, elapsed, negated, is_fresh,
}

-- The year 10000, in nanoseconds since the Unix epoch.
abbrev pub clock_end : ℕ
clock_end = 253402300800 * second

-- The clock and the timestamp are at most five minutes apart.
abbrev pub IsNear : ℕ → ℤ → Type 0
IsNear now (pos secs) = (now ≤ secs * second + tolerance) × (secs * second ≤ now + tolerance)
IsNear now (negsuc secs) = now + (secs + 1) * second ≤ tolerance

-- The timestamp is 2^63 nanoseconds (292 years) or more ahead of the clock, and its seconds since the
-- year 1 are an int64.
abbrev pub IsFarAhead : ℕ → ℤ → Type 0
IsFarAhead now (pos secs) =
    (now + max_duration < secs * second) × (secs + unix_to_internal ≤ 9223372036854775807)
IsFarAhead now (negsuc secs) = 1 ≤ 0

-- A timestamp passes exactly when it is within five minutes of the clock, on either side, or so far
-- ahead that the difference is the least int64, which its negation leaves negative; a timestamp whose
-- seconds since the year 1 do not fit in an int64 is refused. The clock is
-- before the year 10000.
pub is_fresh_iff :
    (now : ℕ) (secs : ℤ)
    → now < clock_end
    → (is_fresh now secs ≡ true) ↔ (IsNear now secs ⊎ IsFarAhead now secs)
unfolding is_fresh elapsed negated
is_fresh_iff now (pos secs) early = (λ h. ground arith, λ h. ground arith)
is_fresh_iff now (negsuc secs) early = (λ h. ground arith, λ h. ground arith)
