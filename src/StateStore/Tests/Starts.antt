-- ===== src/StateStore/Tests/Starts.antt =====
-- Starts of the store, webhooks over it and its writes in a row on small inputs, and the theorems
-- about them at concrete ones.
use renovate_docker_operator.Prelude.{
  arith, ℕ, ◌≡◌, ◌↔◌, ◌⊎◌, refl, true, false, Option, none, some, List, [], ◌∷◌, pos, lookup, put,
  trim_space,
}
use renovate_docker_operator.StateStore.Db.{Session, ok, ◌>>=◌, query, update}
use renovate_docker_operator.StateStore.Settings.{ensure_webhook_secret, is_fresh}
use renovate_docker_operator.StateStore.Settings.Freshness.{IsNear, IsFarAhead, is_fresh_iff}
use renovate_docker_operator.StateStore.Migrations.{Schema, run_migrations, max_version}
use renovate_docker_operator.StateStore.Migrations.Progress.{
  migrated, Progressed, run_migrations-Progressed, run_migrations_completes,
}

abbrev empty : Session
empty = record {
  db = record { jobs = []; projects = []; logs = []; settings = []; discovery = [] };
  faults = [];
}

-- A first start that generates the secret.
generated_run : (ensure_webhook_secret (some "0badc0de") "" empty).0 ≡ ok (some ("0badc0de" ∷ []))
unfolding ensure_webhook_secret query lookup update trim_space
generated_run = refl

-- A start with three bytes in the environment, and one without.
short_secret_run :
    ((ensure_webhook_secret none "abc" >>= λ first. ensure_webhook_secret none "")
      (record empty { db = record empty.db { settings = ("webhook_secret", "0badc0de") ∷ [] } })).0
    ≡ ok none
unfolding ensure_webhook_secret query lookup update put
short_secret_run = refl

far_ahead_run : is_fresh 0 (pos 9223372037) ≡ true
unfolding is_fresh
far_ahead_run = refl

-- The seconds since the year 1 wrap around.
wrapped_run : is_fresh 1700000000000000000 (pos 9223372036854775807) ≡ false
unfolding is_fresh
wrapped_run = refl

is_fresh_iff_example : (is_fresh 1700000000000000000 (pos 1700000301) ≡ true) ↔ (
    IsNear 1700000000000000000 (pos 1700000301) ⊎ IsFarAhead 1700000000000000000 (pos 1700000301))
is_fresh_iff_example = is_fresh_iff 1700000000000000000 (pos 1700000301) (omega arith)

-- Migrations that append their own number to the tables; the third refuses tables of another length.
abbrev migrations : List (List ℕ → Option (List ℕ))
migrations =
    (λ d. some (1 ∷ d))
    ∷ (λ d. some (2 ∷ d))
    ∷ (λ d. elim d [ [] ↦ none | n ∷ ns ↦ some (3 ∷ n ∷ ns) ])
    ∷ []

-- The INSERT of the second migration fails.
abbrev interrupted : Schema (List ℕ)
interrupted = record {
  versions = [];
  tables = [];
  faults = false ∷ false ∷ false ∷ false ∷ false ∷ false ∷ true ∷ [];
}

interrupted_run :
    run_migrations migrations interrupted
    ≡ (true, record { versions = 1 ∷ []; tables = 1 ∷ []; faults = [] })
unfolding run_migrations
interrupted_run = refl

run_migrations-Progressed_example : Progressed migrations [] (run_migrations migrations interrupted)
unfolding max_version
run_migrations-Progressed_example =
    run_migrations-Progressed migrations [] interrupted (migrated [] migrations refl refl refl)

abbrev resumed : Schema (List ℕ)
resumed = record { versions = 1 ∷ []; tables = 1 ∷ []; faults = [] }

run_migrations_completes_example :
    ((run_migrations migrations resumed).0 ≡ false)
    × ((run_migrations migrations resumed).1.tables ≡ 3 ∷ 2 ∷ 1 ∷ [])
unfolding max_version
run_migrations_completes_example =
    run_migrations_completes migrations [] (3 ∷ 2 ∷ 1 ∷ []) (1 ∷ []) (1 ∷ [])
      (migrated ((λ d. some (1 ∷ d)) ∷ [])
        ((λ d. some (2 ∷ d)) ∷ (λ d. elim d [ [] ↦ none | n ∷ ns ↦ some (3 ∷ n ∷ ns) ]) ∷ []) refl
        refl refl)
      refl
