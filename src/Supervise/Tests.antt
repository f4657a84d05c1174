-- ===== src/Supervise/Tests.antt =====
-- The supervised loop on small inputs, and the theorems about it at concrete inputs.
use renovate_docker_operator.Prelude.{
  ℕ, suc, arith, ◌≡◌, ◌≢◌, refl, true, false, ◌==◌, [], ◌∷◌, if◌then◌else◌,
}
use renovate_docker_operator.Supervise.{
  Ran, returned, panicked, errored, Loop, done, tick, execute_tick, wakes, run_loop,
}
use renovate_docker_operator.Supervise.Liveness.{run_loop_keeps_going}

-- The world is the number of runs: the second run fails, all others return nil.
abbrev body : ℕ → Ran × ℕ
body w = (if w == 1 then errored "network" else returned, suc w)

abbrev loop : Loop ℕ
loop = record {
  per_tick_body = true;
  halted = false;
  ticks = 0;
  errs = 0;
  metrics = [];
  exits = 0;
  world = 0;
}

three_ticks :
    (run_loop body false true (tick true ∷ tick true ∷ done ∷ tick true ∷ []) loop).ticks ≡ 3
unfolding run_loop execute_tick wakes
three_ticks = refl

body_is_safe : (w : ℕ) → (body w).0 ≢ panicked
body_is_safe w = ground arith

run_loop_keeps_going_example :
    ((run_loop body false true (tick true ∷ done ∷ []) loop).halted ≡ false)
    × ((run_loop body false true (tick true ∷ done ∷ []) loop).ticks ≡ 2)
run_loop_keeps_going_example =
    run_loop_keeps_going body body_is_safe true (tick true ∷ done ∷ []) loop refl refl
