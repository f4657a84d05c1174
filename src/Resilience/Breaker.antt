-- ===== src/Resilience/Breaker.antt =====
-- The circuit breaker of resilience.go against its specification: over the whole history of rapid
-- failures since the last reset, it trips when enough of them fall within one window.
use renovate_docker_operator.Prelude.{
  ℕ, ◌-◌, ◌≤◌, String, ◌≡◌, refl, Bool, false, ◌||◌, List, [], ◌∷◌, ◌++◌, arith, ℤ, leb, length,
  length-select, le→leb, select, select-append, count_if, All, All-append, All-map,
}
use renovate_docker_operator.Resilience.{
  Source, Outcome, success, rapid_fail, slow_fail, Config, Resolved, Manager, with_defaults, new,
  is_open, report, allow_dispatch, mark_manual, put_project, enqueue_webhook_replay, reset,
  snapshot, trim_window, maybe_trip, drop_before,
}
use renovate_docker_operator.Resilience.Window.{
  IsChronological, IsChronological-append, drop_before_again,
}
use renovate_docker_operator.Resilience.Trace.{
  Call, reporting, asking, marking, enqueuing, resetting, viewing, step, run, clock_after,
  final_clock, IsOrdered,
}

-- The specification keeps every rapid failure since the last reset.
pub record Observed : Type 0 where
  pub history : List ℕ
  pub tripped : Bool

abbrev pub nothing_seen : Observed
nothing_seen = record { history = []; tripped = false }

-- How many of the instants lie within the window that ends at `now`.
pub in_window : Resolved → ℕ → List ℕ → ℕ
in_window cfg now ts = count_if (leb (now - cfg.rapid_fail_window)) ts

pub observe : Resolved → Call → Observed → Observed
unfolding in_window
observe cfg (reporting now _ _ _ rapid_fail _ _) s = record {
  history = s.history ++ now ∷ [];
  tripped = s.tripped || leb cfg.rapid_fail_threshold (in_window cfg now (s.history ++ now ∷ []));
}
observe cfg (resetting now) s = nothing_seen
observe cfg _ s = s

pub observe_all : Resolved → List Call → Observed → Observed
observe_all cfg [] s = s
observe_all cfg (call ∷ calls) s = observe_all cfg calls (observe cfg call s)

-- The Manager's slice is the part of the history from some cutoff on, which is at most the last one.
record Simulates (cfg : Resolved) (last : ℕ) (m : Manager) (s : Observed) : Type 0 where
  settings : m.cfg ≡ cfg
  cutoff : ℕ
  within : cutoff ≤ last - cfg.rapid_fail_window
  fails : m.rapid_fails ≡ select (leb cutoff) s.history
  ordered : IsChronological s.history
  past : All (λ t. t ≤ last) s.history
  state : is_open m.state ≡ s.tripped

module _ (now : ℕ) (scale : ℕ → ℕ) (p : String) (s : Source) (d : ℕ) (x : ℤ) (m : Manager) where
  cfg-report : (o : Outcome) → (report now scale p s o d x m).cfg ≡ m.cfg
  unfolding report put_project trim_window maybe_trip
  cfg-report success = refl
  cfg-report rapid_fail = ground arith
  cfg-report slow_fail = refl

  fails-report :
      (report now scale p s rapid_fail d x m).rapid_fails
      ≡ drop_before (now - m.cfg.rapid_fail_window) (m.rapid_fails ++ now ∷ [])
  unfolding report put_project trim_window maybe_trip
  fails-report = ground arith

  state-report : is_open (report now scale p s rapid_fail d x m).state ≡ (
      is_open m.state
      || leb m.cfg.rapid_fail_threshold
          (length (drop_before (now - m.cfg.rapid_fail_window) (m.rapid_fails ++ now ∷ []))))
  unfolding report put_project trim_window maybe_trip
  state-report = ground arith

select-snoc :
    (c now : ℕ) (ts : List ℕ)
    → c ≤ now
    → select (leb c) ts ++ now ∷ [] ≡ select (leb c) (ts ++ now ∷ [])
select-snoc c now ts h = rw (select-append (leb c) ts (now ∷ [])) (rw (le→leb c now h))

past_later :
    (last now : ℕ) (ts : List ℕ) → last ≤ now → All (λ t. t ≤ last) ts → All (λ t. t ≤ now) ts
past_later last now ts h =
    All-map (λ t. t ≤ last) (λ t. t ≤ now) ts (λ t (k : t ≤ last). omega arith)

-- The slice after a rapid failure, or any other trimming, at `now`.
trimmed :
    (cfg : Resolved) (last now : ℕ) (m : Manager) (s : Observed)
    → Simulates cfg last m s
    → last ≤ now
    → drop_before (now - m.cfg.rapid_fail_window) (m.rapid_fails ++ now ∷ [])
      ≡ select (leb (now - cfg.rapid_fail_window)) (s.history ++ now ∷ [])
trimmed cfg last now m s sim h =
    rw (sim.settings, sim.fails, select-snoc sim.cutoff now s.history (omega (arith, sim.within)))
      (drop_before_again sim.cutoff (now - cfg.rapid_fail_window) (s.history ++ now ∷ [])
        (IsChronological-append s.history now sim.ordered
          (past_later last now s.history h sim.past))
        (omega (arith, sim.within)))

report-Simulates :
    (cfg : Resolved) (last now : ℕ) (scale : ℕ → ℕ) (p : String) (src : Source) (d : ℕ) (x : ℤ)
    (m : Manager) (s : Observed)
    → Simulates cfg last m s
    → last ≤ now
    → Simulates cfg now
        (report now scale p src rapid_fail d x m)
        (observe cfg (reporting now scale p src rapid_fail d x) s)
unfolding observe
report-Simulates cfg last now scale p src d x m s sim h = record {
  settings = rw (cfg-report now scale p src d x m rapid_fail) sim.settings;
  cutoff = now - cfg.rapid_fail_window;
  within = omega arith;
  fails = rw (fails-report now scale p src d x m) (trimmed cfg last now m s sim h);
  ordered =
      IsChronological-append s.history now sim.ordered (past_later last now s.history h sim.past);
  past =
      All-append (λ t. t ≤ now) s.history (now ∷ []) (past_later last now s.history h sim.past)
        (omega arith, tt);
  state =
      rw
        (
          state-report now scale p src d x m,
          trimmed cfg last now m s sim h,
          sim.state,
          sim.settings,
          length-select,
        )
        refl;
}

-- Calls that leave the window and the breaker alone.
untouched :
    (cfg : Resolved) (last now : ℕ) (m m' : Manager) (s : Observed)
    → Simulates cfg last m s
    → last ≤ now
    → m'.cfg ≡ m.cfg
    → m'.rapid_fails ≡ m.rapid_fails
    → m'.state ≡ m.state
    → Simulates cfg now m' s
untouched cfg last now m m' s sim h e f g = record {
  settings = rw e sim.settings;
  cutoff = sim.cutoff;
  within = omega (arith, sim.within);
  fails = rw f sim.fails;
  ordered = sim.ordered;
  past = past_later last now s.history h sim.past;
  state = rw g sim.state;
}

fails-view :
    (cfg : Resolved) (last now : ℕ) (m : Manager) (s : Observed)
    → Simulates cfg last m s
    → last ≤ now
    → (trim_window now m).rapid_fails ≡ select (leb (now - cfg.rapid_fail_window)) s.history
unfolding trim_window
fails-view cfg last now m s sim h =
    rw (sim.settings, sim.fails)
      (drop_before_again sim.cutoff (now - cfg.rapid_fail_window) s.history sim.ordered
        (omega (arith, sim.within)))

view-Simulates :
    (cfg : Resolved) (last now : ℕ) (m : Manager) (s : Observed)
    → Simulates cfg last m s
    → last ≤ now
    → Simulates cfg now (trim_window now m) s
view-Simulates cfg last now m s sim h = record {
  settings = unfold trim_window in sim.settings;
  cutoff = now - cfg.rapid_fail_window;
  within = omega arith;
  fails = fails-view cfg last now m s sim h;
  ordered = sim.ordered;
  past = past_later last now s.history h sim.past;
  state = unfold trim_window in sim.state;
}

step-Simulates :
    (cfg : Resolved) (last : ℕ) (call : Call) (m : Manager) (s : Observed)
    → Simulates cfg last m s
    → last ≤ clock_after last call
    → Simulates cfg (clock_after last call) (step call m) (observe cfg call s)
unfolding step observe
step-Simulates cfg last (reporting now scale p src rapid_fail d x) m s sim h =
    report-Simulates cfg last now scale p src d x m s sim h
step-Simulates cfg last (reporting now scale p src success d x) m s sim h =
    untouched cfg last now m _ s sim h (unfold report put_project in refl)
      (unfold report put_project in refl) (unfold report put_project in refl)
step-Simulates cfg last (reporting now scale p src slow_fail d x) m s sim h =
    untouched cfg last now m _ s sim h (unfold report put_project in refl)
      (unfold report put_project in refl) (unfold report put_project in refl)
step-Simulates cfg last (asking now p src) m s sim h =
    untouched cfg last now m _ s sim h (unfold allow_dispatch put_project in ground arith)
      (unfold allow_dispatch put_project in ground arith)
      (unfold allow_dispatch put_project in ground arith)
step-Simulates cfg last (marking p) m s sim h =
    untouched cfg last last m _ s sim h (unfold mark_manual put_project in refl)
      (unfold mark_manual put_project in refl) (unfold mark_manual put_project in refl)
step-Simulates cfg last (enqueuing p) m s sim h =
    untouched cfg last last m _ s sim h (unfold enqueue_webhook_replay in ground arith)
      (unfold enqueue_webhook_replay in ground arith)
      (unfold enqueue_webhook_replay in ground arith)
step-Simulates cfg last (resetting now) m s sim h = record {
  settings = unfold reset in sim.settings;
  cutoff = 0;
  within = omega arith;
  fails = unfold reset in refl;
  ordered = tt;
  past = tt;
  state = unfold reset in refl;
}
step-Simulates cfg last (viewing now) m s sim h =
    unfold snapshot in view-Simulates cfg last now m s sim h

run-Simulates :
    (cfg : Resolved) (last : ℕ) (calls : List Call) (m : Manager) (s : Observed)
    → Simulates cfg last m s
    → IsOrdered last calls
    → Simulates cfg (final_clock last calls) (run calls m) (observe_all cfg calls s)
unfolding run observe_all
run-Simulates cfg last [] m s sim h = sim
run-Simulates cfg last (call ∷ calls) m s sim h =
    run-Simulates cfg (clock_after last call) calls (step call m) (observe cfg call s)
      (step-Simulates cfg last call m s sim h.0) h.1

new-Simulates : (c : Config) → Simulates (with_defaults c) 0 (new c) nothing_seen
unfolding new
new-Simulates c = record {
  settings = refl;
  cutoff = 0;
  within = omega arith;
  fails = refl;
  ordered = tt;
  past = tt;
  state = refl;
}

module _ (c : Config) (calls : List Call) (ordered : IsOrdered 0 calls) where
  simulated :
      Simulates
        (with_defaults c)
        (final_clock 0 calls)
        (run calls (new c))
        (observe_all (with_defaults c) calls nothing_seen)
  simulated = run-Simulates (with_defaults c) 0 calls (new c) nothing_seen (new-Simulates c) ordered

  -- From a new Manager, after any calls whose clock readings do not run backwards, the breaker is
  -- open exactly when, since the last reset, some rapid failure was the one that brought the
  -- failures within its window up to the threshold: the trimmed slice gives the same answer as the
  -- whole history.
  pub breaker_refines :
      is_open (run calls (new c)).state ≡ (observe_all (with_defaults c) calls nothing_seen).tripped
  breaker_refines = simulated.state

  -- A later Snapshot counts the rapid failures since the last reset that lie in its window.
  pub snapshot_counts :
      (now : ℕ)
      → final_clock 0 calls ≤ now
      → (snapshot now (run calls (new c))).0.rapid_fail_count
        ≡ in_window (with_defaults c) now (observe_all (with_defaults c) calls nothing_seen).history
  unfolding snapshot in_window
  snapshot_counts now h =
      rw
        (fails-view (with_defaults c) (final_clock 0 calls) now (run calls (new c))
          (observe_all (with_defaults c) calls nothing_seen) simulated h)
        (length-select (leb (now - (with_defaults c).rapid_fail_window))
          (observe_all (with_defaults c) calls nothing_seen).history)
