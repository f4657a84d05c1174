-- ===== src/Resilience/Trace.antt =====
-- Executions of the Manager of resilience.go: sequences of calls of its exported methods, each with
-- the clock reading that it takes.
use renovate_docker_operator.Prelude.{ℕ, ◌≤◌, String, List, [], ◌∷◌, ℤ}
use renovate_docker_operator.Resilience.{
  Source, Outcome, Manager, report, allow_dispatch, mark_manual, enqueue_webhook_replay, reset,
  snapshot,
}

pub data Call : Type 0 where
  reporting :
      (now : ℕ) (scale : ℕ → ℕ) (project : String) (source : Source) (outcome : Outcome)
      (duration : ℕ) (exit_code : ℤ)
      → Call
  asking : (now : ℕ) (project : String) (source : Source) → Call
  marking : (project : String) → Call
  enqueuing : (project : String) → Call
  resetting : (now : ℕ) → Call
  viewing : (now : ℕ) → Call

-- The Manager after a call.
unfoldable pub step : Call → Manager → Manager
step (reporting now scale project source outcome duration code) m =
    report now scale project source outcome duration code m
step (asking now project source) m = (allow_dispatch now project source m).1
step (marking project) m = mark_manual project m
step (enqueuing project) m = (enqueue_webhook_replay project m).1
step (resetting now) m = (reset now m).1
step (viewing now) m = (snapshot now m).1

unfoldable pub run : List Call → Manager → Manager
run [] m = m
run (call ∷ calls) m = run calls (step call m)

-- The clock after a call that began at or after `last`: two methods read no clock.
abbrev pub clock_after : ℕ → Call → ℕ
clock_after last (reporting now _ _ _ _ _ _) = now
clock_after last (asking now _ _) = now
clock_after last (marking _) = last
clock_after last (enqueuing _) = last
clock_after last (resetting now) = now
clock_after last (viewing now) = now

abbrev pub final_clock : ℕ → List Call → ℕ
final_clock last [] = last
final_clock last (call ∷ calls) = final_clock (clock_after last call) calls

-- The clock does not run backwards.
abbrev pub IsOrdered : ℕ → List Call → Type 0
IsOrdered last [] = Unit
IsOrdered last (call ∷ calls) =
    (last ≤ clock_after last call) × IsOrdered (clock_after last call) calls

-- An invariant of every call holds throughout.
module _ (P : Manager → Type 0) (keep : (call : Call) (m : Manager) → P m → P (step call m)) where
  pub run_induction : (calls : List Call) (m : Manager) → P m → P (run calls m)
  unfolding run
  run_induction [] m h = h
  run_induction (call ∷ calls) m h = run_induction calls (step call m) (keep call m h)
