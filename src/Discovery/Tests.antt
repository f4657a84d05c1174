-- ===== src/Discovery/Tests.antt =====
-- Discoveries on small tables, and the theorems about them at concrete ones.
use renovate_docker_operator.Prelude.{String, ◌≡◌, refl, some, [], ◌∷◌, lookup, put, contains}
use renovate_docker_operator.StateStore.Db.{Db, StoreError, update, query, transaction}
use renovate_docker_operator.Samples.{codec}
use renovate_docker_operator.Discovery.{
  Agent, already_running, run_discovery, run_discovery_async, on_discovery,
}
use renovate_docker_operator.Discovery.Settled.{discovery_status, IsSettled, on_discovery-IsSettled}

abbrev empty : Db
empty = record { jobs = []; projects = []; logs = []; settings = []; discovery = [] }

abbrev agent : Agent
agent = record { store = record { db = empty; faults = [] }; discovery_id = [] }

abbrev print_error : StoreError → String
print_error e = "error"

-- A request that starts a discovery, and a second one.
requested_run :
    (run_discovery_async codec 2 "main" (run_discovery_async codec 1 "main" agent).1).0
    ≡ already_running
unfolding run_discovery_async query lookup update put
requested_run = refl

ended_run :
    discovery_status "main"
      (on_discovery codec print_error 1 2 "main"
        (some ("org/a" ∷ []))
        (run_discovery_async codec 1 "main" agent).1).store.db
    ≡ some "completed"
unfolding run_discovery_async on_discovery lookup query update transaction contains put
ended_run = refl

on_discovery-IsSettled_example :
    IsSettled codec "main" 2
      (some ("org/a" ∷ []))
      empty
      (run_discovery codec 2 "main" (some ("org/a" ∷ [])) agent.store).1
      (on_discovery codec print_error 1 2 "main" (some ("org/a" ∷ [])) agent).store.db
on_discovery-IsSettled_example =
    on_discovery-IsSettled codec "main" print_error 1 2 (some ("org/a" ∷ [])) agent
