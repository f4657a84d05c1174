-- ===== src/Discovery.antt =====
-- The Agent of internal/discovery/agent.go over the store, and DispatchDiscoveryAsync of
-- internal/executor/docker.go as the slot that it reserves. What the discovery container prints is
-- an argument: the repositories, or `none` for an error.
pub mod Settled
pub mod Untouched
mod Tests
use renovate_docker_operator.Prelude.{
  ℕ, String, Bool, true, false, Option, none, some, List, [], ◌∷◌, Dict, lookup, put, delete,
  str_eq, if◌then◌else◌,
}
use renovate_docker_operator.StateStore.Db.{
  Codec, StoreError, failure, Result, ok, err, Session, Action, Done, raise,
}
use renovate_docker_operator.StateStore.Projects.{reconcile_projects}
use renovate_docker_operator.StateStore.Settings.{
  DiscoveryStatus, set_discovery_status, get_discovery_status,
}

-- The store, and the executor's discoveryID.
pub record Agent : Type 0 where
  pub store : Session
  pub discovery_id : Dict String

-- nil, ErrDiscoveryAlreadyRunning, or an error of the store.
pub data Started : Type 0 where
  discovery_started already_running : Started
  store_error : StoreError → Started

abbrev pub is_running : Option DiscoveryStatus → Bool
is_running none = false
is_running (some status) = str_eq status.status "running"

module _ (codec : Codec) where
  unfoldable pub run_discovery :
      (now : ℕ) (job : String) → Option (List String) → Action (List String)
  unfolding reconcile_projects
  run_discovery now job none = raise failure
  run_discovery now job (some repos) = reconcile_projects codec now job repos

  -- DispatchDiscoveryAsync up to the start of the goroutine, and the revert of the status where it
  -- refuses; the callback is `on_discovery`.
  unfoldable pub dispatch_discovery_async : String → Agent → Started × Agent
  unfolding set_discovery_status
  dispatch_discovery_async job a = elim (lookup job a.discovery_id) [
    | some id ↦ (
      already_running,
      record a { store = (set_discovery_status codec job "idle" none none "" a.store).1 },
    )
    | none ↦ (discovery_started, record a { discovery_id = put job "" a.discovery_id })
  ]

  after_running : String → Result Done × Session → Agent → Started × Agent
  unfolding dispatch_discovery_async
  after_running job (err e, s) a = (store_error e, record a { store = s })
  after_running job (ok u, s) a = dispatch_discovery_async job (record a { store = s })

  unfoldable pub after_check :
      (now : ℕ) (job : String) → Result (Option DiscoveryStatus) × Session → Agent → Started × Agent
  unfolding set_discovery_status after_running
  after_check now job (err e, s) a = (store_error e, record a { store = s })
  after_check now job (ok status, s) a =
      if is_running status
      then (already_running, record a { store = s })
      else after_running job (set_discovery_status codec job "running" (some now) none "" s) a

  unfoldable pub run_discovery_async : (now : ℕ) (job : String) → Agent → Started × Agent
  unfolding get_discovery_status after_check
  run_discovery_async now job a = after_check now job (get_discovery_status codec job a.store) a

  -- The end of the callback, for the outcome of the reconciliation; errors of the last write are
  -- dropped. The texts of errors are an argument.
  unfoldable pub settle :
      (print_error : StoreError → String) (now completed_at : ℕ) (job : String)
      → Result (List String) × Session
      → Session
  unfolding set_discovery_status
  settle print_error now completed_at job (err e, s) =
      (set_discovery_status codec job "failed" (some now) (some completed_at) (print_error e) s).1
  settle print_error now completed_at job (ok removed, s) =
      (set_discovery_status codec job "completed" (some now) (some completed_at) "" s).1

  -- The callback, and the release of the slot: `now` is when the discovery was requested.
  unfoldable pub on_discovery :
      (print_error : StoreError → String) (now completed_at : ℕ) (job : String)
      → Option (List String)
      → Agent
      → Agent
  unfolding run_discovery settle
  on_discovery print_error now completed_at job repos a = record {
    store = settle print_error now completed_at job (run_discovery completed_at job repos a.store);
    discovery_id = delete job a.discovery_id;
  }
