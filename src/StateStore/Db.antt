-- ===== src/StateStore/Db.antt =====
-- The tables that internal/statestore/migrations.go leaves, and how the methods of
-- internal/statestore/sqlite.go run statements on them. SQLite itself is not modelled: a table is
-- the list of its rows, a statement is a function of the tables, and each statement, commits
-- included, may fail as the session's `faults` say, from the first on; none fail after the last.
-- Foreign keys are not enforced.
pub mod Rules
use renovate_docker_operator.Prelude.{
  ℕ, String, Bool, true, false, Option, none, some, List, [], ◌∷◌, ℤ, Dict, if◌then◌else◌,
}
use renovate_docker_operator.Api.{EnvVar, RenovateProjectStatus, PrActivity, LogIssues}

-- renovate_jobs: the columns of type INTEGER are read into int, and lists are JSON texts.
pub record JobRow : Type 0 where
  pub name : String
  pub schedule : String
  pub image : String
  pub platform : String
  pub endpoint : String
  pub discovery_filters : String
  pub discover_topics : String
  pub skip_forks : ℤ
  pub skip_pending_deletion : ℤ
  pub secret_ref : String
  pub extra_env : String
  pub parallelism : ℤ
  pub webhook_enabled : ℤ
  pub webhook_auth_enabled : ℤ
  pub webhook_sync_enabled : ℤ
  pub allowed_groups : String
  pub debug_mode : ℤ

-- projects: `none` is NULL. The program writes no status but its constants.
pub record ProjectRow : Type 0 where
  pub job_name : String
  pub full_name : String
  pub status : RenovateProjectStatus
  pub priority : ℤ
  pub last_run : Option String
  pub duration : Option String
  pub renovate_result_status : Option String
  pub pr_activity : Option String
  pub log_issues : Option String
  pub current_container_id : Option String

-- job_logs
pub record LogRow : Type 0 where
  pub job_name : String
  pub project_name : String
  pub log_data : List ℕ

-- discovery_status, under its job_name
pub record DiscoveryRow : Type 0 where
  pub status : String
  pub started_at : Option String
  pub completed_at : Option String
  pub error_message : Option String

pub record Db : Type 0 where
  pub jobs : List JobRow
  pub projects : List ProjectRow
  pub logs : List LogRow
  pub settings : Dict String
  pub discovery : Dict DiscoveryRow

-- encoding/json and the RFC 3339 layout of package time, for what the store keeps as texts.
pub record Codec : Type 0 where
  pub format_time : ℕ → String
  pub parse_time : String → Option ℕ
  pub marshal_activity : PrActivity → Option String
  pub unmarshal_activity : String → Option PrActivity
  pub marshal_issues : LogIssues → Option String
  pub unmarshal_issues : String → Option LogIssues
  pub unmarshal_strings : String → Option (List String)
  pub unmarshal_env : String → Option (List EnvVar)

-- ErrNotFound, ErrProjectNotFound, a UNIQUE constraint, and every other error.
pub data StoreError : Type 0 where
  not_found project_not_found not_unique failure : StoreError

pub data Result {ℓ} (A : Type ℓ) : Type ℓ where
  ok : A → Result A
  err : StoreError → Result A

pub record Session : Type 0 where
  pub db : Db
  pub faults : List Bool

abbrev pub Action : Type 0 → Type 0
Action A = Session → Result A × Session

abbrev pub Done : Type 0
Done = Unit {0}

abbrev pub return : {A : Type 0} → A → Action A
return a s = (ok a, s)

abbrev pub raise : {A : Type 0} → StoreError → Action A
raise e s = (err e, s)

-- What follows on a result: nothing after an error.
abbrev pub follow : {A B : Type 0} → (A → Action B) → Result A × Session → Result B × Session
follow f (ok a, s) = f a s
follow f (err e, s) = (err e, s)

infixl 5 ◌>>=◌ ◌>>◌
abbrev pub ◌>>=◌ : {A B : Type 0} → Action A → (A → Action B) → Action B
◌>>=◌ m f s = follow f (m s)

abbrev pub ◌>>◌ : {A B : Type 0} → Action A → Action B → Action B
m >> k = m >>= λ _. k

-- An error that the code has in hand.
abbrev pub or_raise : {A : Type 0} → Option A → StoreError → Action A
or_raise none e = raise e
or_raise (some a) e = return a

-- One statement: it fails if the next fault says so.
unfoldable pub with_fault :
    {A : Type 0} → List Bool → (Db → Result A × Db) → Db → Result A × Session
with_fault [] f d = let (r, d1) = f d in (r, record { db = d1; faults = [] })
with_fault (true ∷ later) f d = (err failure, record { db = d; faults = later })
with_fault (false ∷ later) f d = let (r, d1) = f d in (r, record { db = d1; faults = later })

unfoldable pub execute : {A : Type 0} → (Db → Result A × Db) → Action A
unfolding with_fault
execute f s = with_fault s.faults f s.db

-- A query with its rows read.
unfoldable pub query : {A : Type 0} → (Db → A) → Action A
unfolding execute
query f = execute (λ d. (ok (f d), d))

-- A statement that does not fail by itself.
unfoldable pub update : (Db → Db) → Action Done
unfolding execute
update f = execute (λ d. (ok tt, f d))

-- A statement's effect, or its error without one.
abbrev pub checked : Bool → StoreError → (after before : Db) → Result Done × Db
checked true e after before = (ok tt, after)
checked false e after before = (err e, before)

-- A commit: where it fails the tables are put back.
unfoldable pub committed : {A : Type 0} → Db → A → Result Done × Session → Result A × Session
committed before a (ok u, s) = (ok a, s)
committed before a (err e, s) = (err e, record s { db = before })

-- The end of a transaction that began on `before`: after an error the tables are put back.
unfoldable pub end_transaction : {A : Type 0} → Db → Result A × Session → Result A × Session
unfolding committed
end_transaction before (err e, s) = (err e, record s { db = before })
end_transaction before (ok a, s) = committed before a (update (λ d. d) s)

-- BeginTx, the statements, and Commit or the deferred Rollback.
unfoldable pub transaction : {A : Type 0} → Action A → Action A
unfolding end_transaction
transaction body s = follow (λ u s1. end_transaction s.db (body s1)) (update (λ d. d) s)
