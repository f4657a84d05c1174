-- ===== src/Executor/Env/Precedence.antt =====
-- Who wins in the environment that buildEnvVars makes.
use text.Mathlib.Text.{starts_with}
use renovate_docker_operator.Prelude.{
  String, ◌≡◌, refl, ◌∙◌, Bool, not, ◌&&◌, Option, none, some, List, [], ◌∷◌, arith, str_eq,
  if◌then◌else◌, Dict, lookup, put, lookup-put,
}
use renovate_docker_operator.Api.{EnvVar, RenovateJob}
use renovate_docker_operator.Executor.Env.{
  defaults, pass_through, protect, put_extra, build_env_vars,
}

-- The first of two values that is there.
infixr 20 ◌<+◌
abbrev pub ◌<+◌ : Option String → Option String → Option String
none <+ y = y
some v <+ y = some v

-- The last extra variable of that name.
unfoldable pub last_extra : String → List EnvVar → Option String
last_extra k [] = none
last_extra k (e ∷ rest) = last_extra k rest <+ (if str_eq e.name k then some e.value else none)

-- The last variable of the operator's environment of that name that is passed through.
unfoldable pub last_passed : String → List (String × String) → Option String
last_passed k [] = none
last_passed k ((j, v) ∷ rest) =
    last_passed k rest
    <+ (if str_eq j k && (starts_with j "RENOVATE_" && not (str_eq v "")) then some v else none)

unfoldable pub protected : String → Option String
protected k =
    if str_eq "RENOVATE_BASE_DIR" k
    then some "/tmp/renovate"
    else (if str_eq "RENOVATE_LOG_FORMAT" k then some "json" else none)

<+_assoc : (x y z : Option String) → (x <+ y) <+ z ≡ x <+ (y <+ z)
<+_assoc none y z = refl
<+_assoc (some v) y z = refl

lookup-put_extra :
    (k : String) (es : List EnvVar) (env : Dict String)
    → lookup k (put_extra es env) ≡ (last_extra k es <+ lookup k env)
unfolding put_extra last_extra
lookup-put_extra k [] env = refl
lookup-put_extra k (e ∷ rest) env =
    lookup-put_extra k rest (put e.name e.value env)
    ∙ ground (arith, lookup-put e.name k e.value env)

lookup-pass_through :
    (k : String) (es : List (String × String)) (env : Dict String)
    → lookup k (pass_through es env) ≡ (last_passed k es <+ lookup k env)
unfolding pass_through last_passed
lookup-pass_through k [] env = refl
lookup-pass_through k ((j, v) ∷ rest) env =
    lookup-pass_through k rest
      (if starts_with j "RENOVATE_" && not (str_eq v "") then put j v env else env)
    ∙ ground (arith, lookup-put j k v env)

lookup-protect :
    (k : String) (env : Dict String) → lookup k (protect env) ≡ (protected k <+ lookup k env)
unfolding protect protected
lookup-protect k env = ground (
  arith,
  lookup-put "RENOVATE_LOG_FORMAT" k "json" env,
  lookup-put "RENOVATE_BASE_DIR" k "/tmp/renovate" (put "RENOVATE_LOG_FORMAT" "json" env),
)

-- For every variable: the job's extra variables win, the last of a name; then the two protected
-- values; then the operator's own non-empty RENOVATE_ variables; then the defaults, which the job's
-- provider, debug option and discovery filters fill.
pub build_env_vars_precedence :
    (environ : List (String × String)) (job : RenovateJob) (is_discovery : Bool) (k : String)
    → lookup k (build_env_vars environ job is_discovery) ≡ (
        last_extra k job.spec.extra_env
        <+ protected k
        <+ last_passed k environ
        <+ lookup k (defaults job is_discovery))
unfolding build_env_vars
build_env_vars_precedence environ job is_discovery k =
    rw (lookup-put_extra, lookup-protect, lookup-pass_through) refl
