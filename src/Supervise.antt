-- ===== src/Supervise.antt =====
-- internal/supervise/supervise.go: the supervised loop, its tick with panic recovery, and the guard
-- of a loop that runs by itself. The body is a function of one state of the world; a context is
-- the answers of ctx.Err() at the points that read it. A fatal condition calls exitFn(1), which may
-- return, as in the code's own tests.
pub mod Liveness
mod Tests
use renovate_docker_operator.Prelude.{
  ℕ, ◌+◌, String, Option, none, some, Bool, true, false, not, ◌&&◌, any, contains_text, str_eq,
  List, [], ◌∷◌, ◌++◌, if◌then◌else◌,
}

-- An error as ClassifyError sees it: whether it wraps a net.OpError or a url.Error, whether it is a
-- context error, what the Classify method of an error that it wraps returns, and its message.
pub record Failure : Type 0 where
  pub network : Bool
  pub context : Bool
  pub classify : Option String
  pub message : String

abbrev pub auth_indicators : List String
auth_indicators =
    "401" ∷ "403" ∷ "unauthorized" ∷ "forbidden" ∷ "authentication required" ∷ "access denied" ∷ []

abbrev pub parse_indicators : List String
parse_indicators =
    "invalid syntax" ∷ "parsing" ∷ "unexpected end of JSON" ∷ "cannot unmarshal"
    ∷ "invalid character" ∷ []

-- The kinds that a Classify method may give.
abbrev pub classes : List String
classes = "network" ∷ "context" ∷ "parse" ∷ "auth" ∷ []

module _ (to_lower : String → String) where
  unfoldable pub contains_auth_indicator : String → Bool
  contains_auth_indicator message = any (contains_text (to_lower message)) auth_indicators

  unfoldable pub is_parse_error : String → Bool
  is_parse_error message = any (contains_text message) parse_indicators

  classify_message : String → String
  unfolding contains_auth_indicator is_parse_error
  classify_message message =
      if contains_auth_indicator message
      then "auth"
      else (if is_parse_error message then "parse" else "other")

  -- strings.ToLower is the parameter; `none` is a nil error.
  unfoldable pub classify_error : Option Failure → String
  unfolding classify_message
  classify_error none = "other"
  classify_error (some f) =
      if f.network
      then "network"
      else (if f.context then "context" else elim f.classify [
        | some kind ↦ if any (str_eq kind) classes then kind else "other"
        | none ↦ classify_message f.message
      ])

-- What one run of the body comes to: nil, an error with its kind by ClassifyError, or a panic.
pub data Ran : Type 0 where
  returned panicked : Ran
  errored : String → Ran

pub data Metric : Type 0 where
  inc_tick : Metric
  inc_error : String → Metric

-- loopConfig with the variables of Loop: the metric calls in their order, and the number of exitFn(1).
pub record Loop (W : Type 0) : Type 0 where
  pub per_tick_body : Bool
  pub halted : Bool
  pub ticks : ℕ
  pub errs : ℕ
  pub metrics : List Metric
  pub exits : ℕ
  pub world : W

-- ctx.Done() or the ticker. `live` says whether ctx.Err() is nil when the body has returned.
pub data Wake : Type 0 where
  done : Wake
  tick : (live : Bool) → Wake

module _ {W : Type 0} (body : W → Ran × W) where
  halt : Loop W → Loop W
  halt l = record l { halted = true; exits = l.exits + 1 }

  complete : Loop W → Loop W
  complete l = record l { ticks = l.ticks + 1; metrics = l.metrics ++ inc_tick ∷ [] }

  after_body : (fatal_on_nil_return live : Bool) → Ran → Loop W → Loop W
  unfolding halt complete
  after_body fatal live panicked l = halt l
  after_body fatal live (errored kind) l = record l {
    errs = l.errs + 1;
    ticks = l.ticks + 1;
    metrics = l.metrics ++ inc_error kind ∷ inc_tick ∷ [];
  }
  after_body fatal live returned l =
      if fatal && (not l.per_tick_body && live) then halt l else complete l

  unfoldable pub execute_tick : (fatal_on_nil_return live : Bool) → Loop W → Loop W
  unfolding after_body
  execute_tick fatal live l =
      let (ran, world) = body l.world in after_body fatal live ran (record l { world = world })

  -- The `for`, over the wake-ups as they come: the loop has ended where ctx is done or it halts, and
  -- else waits for a further one.
  unfoldable pub wakes : List Wake → Loop W → Loop W
  unfolding execute_tick
  wakes [] l = l
  wakes (done ∷ later) l = l
  wakes (tick live ∷ later) l =
      let next = execute_tick true live l in if next.halted then next else wakes later next

  -- Loop; `once` is `interval == 0`, and `live` is for the first tick.
  unfoldable pub run_loop : (once live : Bool) → List Wake → Loop W → Loop W
  run_loop true live later l = execute_tick false live l
  run_loop false live later l =
      let first = execute_tick true live l in if first.halted then first else wakes later first

-- The deferred function of Guard: the number of exitFn(1) that it calls.
unfoldable pub guard : (panicking live : Bool) → ℕ
guard true live = 1
guard false live = if live then 1 else 0
