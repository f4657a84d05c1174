-- ===== src/StateStore/Migrations.antt =====
-- runMigrations of internal/statestore/migrations.go. The SQL text of a migration is a parameter: a
-- partial function of the tables D, `none` where SQLite refuses it. Each other statement may fail, as
-- `faults` say, from the first on.
pub mod Progress
use renovate_docker_operator.Prelude.{
  ℕ, suc, ◌+◌, Bool, true, false, Option, none, some, List, [], ◌∷◌, ◌++◌, leb, if◌then◌else◌, drop,
}

-- schema_migrations as its versions, and the other tables.
pub record Schema (D : Type 0) : Type 0 where
  pub versions : List ℕ
  pub tables : D
  pub faults : List Bool

-- COALESCE(MAX(version), 0)
unfoldable pub max_version : List ℕ → ℕ
max_version [] = 0
max_version (v ∷ vs) = let rest = max_version vs in if leb v rest then rest else v

-- Whether the next statement fails, and what is left of the faults.
abbrev pub next_fault : List Bool → Bool × List Bool
next_fault [] = (false, [])
next_fault (f ∷ fs) = (f, fs)

module _ {D : Type 0} where
  abbrev pub with_faults : List Bool → Schema D → Schema D
  with_faults faults s = record s { faults = faults }

  -- The INSERT of the version and the commit; `true` is an error, after which the transaction is
  -- rolled back.
  commit : ℕ → D → List Bool → Schema D → Bool × Schema D
  commit version tables faults s =
      let (insert_fails, f1) = next_fault faults in
      let (commit_fails, f2) = next_fault f1 in
      if insert_fails
      then (true, with_faults f1 s)
      else (if commit_fails then (true, with_faults f2 s) else (
        false,
        record { versions = s.versions ++ version ∷ []; tables = tables; faults = f2 },
      ))

  execute_migration : ℕ → Option D → List Bool → Schema D → Bool × Schema D
  unfolding commit
  execute_migration version none faults s = (true, with_faults faults s)
  execute_migration version (some tables) faults s = commit version tables faults s

  -- The body of the loop.
  unfoldable pub migrate : ℕ → (D → Option D) → Schema D → Bool × Schema D
  unfolding execute_migration
  migrate version migration s =
      let (begin_fails, f1) = next_fault s.faults in
      if begin_fails
      then (true, with_faults f1 s)
      else execute_migration version (migration s.tables) f1 s

  -- The loop, for the migrations from the index on; migration i+1 has index i.
  unfoldable pub migrate_from : ℕ → List (D → Option D) → Schema D → Bool × Schema D
  unfolding migrate
  migrate_from index [] s = (false, s)
  migrate_from index (migration ∷ later) s =
      let (failed, s1) = migrate (index + 1) migration s in
      let rest = migrate_from (index + 1) later s1 in if failed then (true, s1) else rest

  -- `true` is an error. The bootstrap makes the table of versions where there is none.
  unfoldable pub run_migrations : List (D → Option D) → Schema D → Bool × Schema D
  unfolding migrate_from max_version
  run_migrations migrations s =
      let (create_fails, f1) = next_fault s.faults in
      let (read_fails, f2) = next_fault f1 in
      if create_fails
      then (true, with_faults f1 s)
      else (if read_fails
          then (true, with_faults f2 s)
          else migrate_from (max_version s.versions) (drop (max_version s.versions) migrations)
              (with_faults f2 s))
