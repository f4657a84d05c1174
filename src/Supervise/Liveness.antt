-- ===== src/Supervise/Liveness.antt =====
-- What ends a supervised loop of internal/supervise/supervise.go, and what it counts.
use renovate_docker_operator.Prelude.{
  ℕ, ◌+◌, ◌≤◌, String, ◌≡◌, ◌≢◌, ◌⊎◌, ◌↔◌, inl, inr, refl, Bool, true, false, List, Option, none,
  some, any, str_eq, [], ◌∷◌, arith, if◌then◌else◌, count_if, count_if-append, Bool-cases,
}
use renovate_docker_operator.Supervise.{
  Ran, returned, panicked, errored, Metric, inc_tick, inc_error, Loop, Wake, done, tick, after_body,
  execute_tick, Failure, classes, classify_error, classify_message, contains_auth_indicator,
  is_parse_error, wakes, run_loop, halt, complete,
}

abbrev pub is_inc_tick : Metric → Bool
is_inc_tick inc_tick = true
is_inc_tick (inc_error _) = false

abbrev pub is_inc_error : Metric → Bool
is_inc_error inc_tick = false
is_inc_error (inc_error _) = true

-- The counters agree with the metrics, errors are ticks, and exitFn is called once where the loop
-- halts and never before.
pub record IsCounted {W : Type 0} (l : Loop W) : Type 0 where
  pub ticks_recorded : l.ticks ≡ count_if is_inc_tick l.metrics
  pub errs_recorded : l.errs ≡ count_if is_inc_error l.metrics
  pub errs_are_ticks : l.errs ≤ l.ticks
  pub exits_once : l.exits ≡ (if l.halted then 1 else 0)

module _ {W : Type 0} (body : W → Ran × W) where
  after_body-IsCounted :
      (fatal live : Bool) (ran : Ran) (l : Loop W)
      → l.halted ≡ false
      → IsCounted l
      → IsCounted (after_body body fatal live ran l)
  unfolding after_body halt complete
  after_body-IsCounted fatal live panicked l h c = ground (arith, c)
  after_body-IsCounted fatal live (errored kind) l h c = ground (
    arith,
    c,
    count_if-append is_inc_tick l.metrics (inc_error kind ∷ inc_tick ∷ []),
    count_if-append is_inc_error l.metrics (inc_error kind ∷ inc_tick ∷ []),
  )
  after_body-IsCounted fatal live returned l h c = ground (
    arith,
    c,
    count_if-append is_inc_tick l.metrics (inc_tick ∷ []),
    count_if-append is_inc_error l.metrics (inc_tick ∷ []),
  )

  execute_tick-IsCounted :
      (fatal live : Bool) (l : Loop W)
      → l.halted ≡ false
      → IsCounted l
      → IsCounted (execute_tick body fatal live l)
  unfolding execute_tick
  execute_tick-IsCounted fatal live l h c =
      after_body-IsCounted fatal live (body l.world).0 (record l { world = (body l.world).1 }) h
        (record {
          ticks_recorded = c.ticks_recorded;
          errs_recorded = c.errs_recorded;
          errs_are_ticks = c.errs_are_ticks;
          exits_once = c.exits_once;
        })

  wakes-IsCounted :
      (later : List Wake) (l : Loop W)
      → l.halted ≡ false
      → IsCounted l
      → IsCounted (wakes body later l)
  unfolding wakes
  wakes-IsCounted [] l h c = c
  wakes-IsCounted (done ∷ later) l h c = c
  wakes-IsCounted (tick live ∷ later) l h c =
      choose (execute_tick body true live l) (execute_tick-IsCounted true live l h c)
        (wakes-IsCounted later) _ refl
    where
      choose :
          (next : Loop W)
          → IsCounted next
          → ((later_l : Loop W)
              → later_l.halted ≡ false
              → IsCounted later_l
              → IsCounted (wakes body later later_l))
          → (halted : Bool) → next.halted ≡ halted
          → IsCounted (if halted then next else wakes body later next)
      choose next counted more true e = counted
      choose next counted more false e = more next e counted

  -- Whenever the loop ends or waits, its counters agree with the metrics that it recorded, every
  -- error is a tick, and exitFn has been called exactly once if it halted and else not.
  pub run_loop-IsCounted :
      (once live : Bool) (later : List Wake) (l : Loop W)
      → l.halted ≡ false
      → IsCounted l
      → IsCounted (run_loop body once live later l)
  unfolding run_loop wakes
  run_loop-IsCounted true live later l h c = execute_tick-IsCounted false live l h c
  run_loop-IsCounted false live later l h c = wakes-IsCounted (tick live ∷ later) l h c

  after_body_halts :
      (fatal live : Bool) (ran : Ran) (l : Loop W)
      → l.halted ≡ false
      → ((after_body body fatal live ran l).halted ≡ true) ↔ (
          (ran ≡ panicked)
          ⊎ ((ran ≡ returned) × ((fatal ≡ true) × ((l.per_tick_body ≡ false) × (live ≡ true)))))
  unfolding after_body halt complete
  after_body_halts fatal live panicked l h = (λ e. inl refl, λ s. refl)
  after_body_halts fatal live (errored kind) l h = (λ e. ground arith, λ s. ground arith)
  after_body_halts fatal live returned l h = (λ e. ground arith, λ s. ground arith)

  -- A tick is fatal exactly when the body panics, or returns nil unasked: in a loop with an interval,
  -- by a body that is to loop by itself, and with the context still live.
  pub execute_tick_halts_iff :
      (fatal live : Bool) (l : Loop W)
      → l.halted ≡ false
      → ((execute_tick body fatal live l).halted ≡ true) ↔ (
          ((body l.world).0 ≡ panicked)
          ⊎ (((body l.world).0 ≡ returned)
              × ((fatal ≡ true) × ((l.per_tick_body ≡ false) × (live ≡ true)))))
  unfolding execute_tick
  execute_tick_halts_iff fatal live l h =
      after_body_halts fatal live (body l.world).0 (record l { world = (body l.world).1 }) h

  after_body-per_tick :
      (live : Bool) (ran : Ran) (l : Loop W)
      → l.per_tick_body ≡ true
      → l.halted ≡ false
      → ran ≢ panicked
      → let next = after_body body true live ran l in
        (next.per_tick_body ≡ true) × (next.halted ≡ false) × (next.ticks ≡ l.ticks + 1)
  unfolding after_body halt complete
  after_body-per_tick live panicked l p h n = absurd (n refl)
  after_body-per_tick live (errored kind) l p h n = (p, h, refl)
  after_body-per_tick live returned l p h n = ground arith

  execute_tick-per_tick :
      (live : Bool) (l : Loop W)
      → l.per_tick_body ≡ true
      → l.halted ≡ false
      → (body l.world).0 ≢ panicked
      → let next = execute_tick body true live l in
        (next.per_tick_body ≡ true) × (next.halted ≡ false) × (next.ticks ≡ l.ticks + 1)
  unfolding execute_tick
  execute_tick-per_tick live l p h n =
      after_body-per_tick live (body l.world).0 (record l { world = (body l.world).1 }) p h n

-- The wake-ups before the context is done.
abbrev pub ticks_before_done : List Wake → ℕ
ticks_before_done [] = 0
ticks_before_done (done ∷ later) = 0
ticks_before_done (tick live ∷ later) = 1 + ticks_before_done later

module _ {W : Type 0} (body : W → Ran × W) (safe : (w : W) → (body w).0 ≢ panicked) where
  wakes_keep_going :
      (later : List Wake) (l : Loop W)
      → l.per_tick_body ≡ true
      → l.halted ≡ false
      → let end = wakes body later l in
        (end.halted ≡ false) × (end.ticks ≡ l.ticks + ticks_before_done later)
  unfolding wakes
  wakes_keep_going [] l p h = (h, omega arith)
  wakes_keep_going (done ∷ later) l p h = (h, omega arith)
  wakes_keep_going (tick live ∷ later) l p h =
      let (p1, h1, t1) = execute_tick-per_tick body live l p h (safe l.world) in
      let rest = wakes_keep_going later (execute_tick body true live l) p1 h1 in
      rw h1 (rest.0, omega arith)

  -- A body that does not panic and is to be run once per tick never ends its loop: whatever errors
  -- it returns, it is run at once and then at every tick until the context is done.
  pub run_loop_keeps_going :
      (live : Bool) (later : List Wake) (l : Loop W)
      → l.per_tick_body ≡ true
      → l.halted ≡ false
      → let end = run_loop body false live later l in
        (end.halted ≡ false) × (end.ticks ≡ l.ticks + 1 + ticks_before_done later)
  unfolding run_loop wakes
  run_loop_keeps_going live later l p h =
      let rest = wakes_keep_going (tick live ∷ later) l p h in (rest.0, omega arith)

abbrev pub kinds : List String
kinds = "other" ∷ classes

choice_bounded :
    (b : Bool) (x y : String)
    → any (str_eq x) kinds ≡ true
    → any (str_eq y) kinds ≡ true
    → any (str_eq (if b then x else y)) kinds ≡ true
choice_bounded true x y f g = f
choice_bounded false x y f g = g

classify_bounded :
    (to_lower : String → String) (classify : Option String) (message : String)
    → any
        (str_eq (elim classify [
          | some kind ↦ if any (str_eq kind) classes then kind else "other"
          | none ↦ classify_message to_lower message
        ]))
        kinds
      ≡ true
unfolding classify_message
classify_bounded to_lower none message =
    choice_bounded (contains_auth_indicator to_lower message) "auth" _ refl
      (choice_bounded (is_parse_error to_lower message) "parse" "other" refl refl)
classify_bounded to_lower (some kind) message = elim (Bool-cases (any (str_eq kind) classes)) [
  | inl known ↦ ground arith
  | inr unknown ↦ rw unknown refl
]

-- ClassifyError gives one of five kinds, whatever the error and its own Classify method say.
pub classify_error_bounded :
    (to_lower : String → String) (error : Option Failure)
    → any (str_eq (classify_error to_lower error)) kinds ≡ true
unfolding classify_error
classify_error_bounded to_lower none = refl
classify_error_bounded to_lower (some f) =
    choice_bounded f.network "network" _ refl
      (choice_bounded f.context "context" _ refl (classify_bounded to_lower f.classify f.message))
