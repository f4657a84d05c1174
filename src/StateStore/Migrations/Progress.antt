-- ===== src/StateStore/Migrations/Progress.antt =====
-- runMigrations of internal/statestore/migrations.go stops only between migrations, and a later run
-- goes on from there.
use mathlib.Core.List.{append_assoc, append-nil}
use renovate_docker_operator.Prelude.{
  ℕ, ◌+◌, ◌≤◌, ◌≡◌, ◌⊎◌, inl, inr, refl, ◌∙◌, ap, sym, subst, Bool, true, false, Option, none, some,
  List, [], ◌∷◌, ◌++◌, arith, if◌then◌else◌, length, drop, length-append,
}
use renovate_docker_operator.StateStore.Migrations.{
  Schema, max_version, next_fault, with_faults, commit, execute_migration, migrate, migrate_from,
  run_migrations,
}

max_version-append : (vs : List ℕ) (v : ℕ) → max_version vs ≤ v → max_version (vs ++ v ∷ []) ≡ v
unfolding max_version
max_version-append [] v h = ground arith
max_version-append (w ∷ vs) v h = ground (arith, max_version-append vs v)

module _ {D : Type 0} where
  -- The migrations in order, as one.
  abbrev pub apply_all : List (D → Option D) → D → Option D
  apply_all [] d = some d
  apply_all (m ∷ ms) d = elim (m d) [ none ↦ none | some d1 ↦ apply_all ms d1 ]

  same_option : (o : Option D) → elim o [ none ↦ none | some d ↦ some d ] ≡ o
  same_option none = refl
  same_option (some d) = refl

  apply_all-snoc :
      (ms : List (D → Option D)) (m : D → Option D) (d t : D)
      → apply_all ms d ≡ some t
      → apply_all (ms ++ m ∷ []) d ≡ m t
  apply_all-snoc [] m d t e = same_option (m d) ∙ ap m cc
  apply_all-snoc (n ∷ ms) m d t e = go (n d) (λ d1. apply_all-snoc ms m d1 t) e
    where
      go :
          (o : Option D)
          → ((d1 : D) → apply_all ms d1 ≡ some t → apply_all (ms ++ m ∷ []) d1 ≡ m t)
          → elim o [ none ↦ none | some d1 ↦ apply_all ms d1 ] ≡ some t
          → elim o [ none ↦ none | some d1 ↦ apply_all (ms ++ m ∷ []) d1 ] ≡ m t
      go none again h = cc
      go (some d1) again h = again d1 h

  -- The tables are those of a first part of the migrations, whose last version is recorded.
  pub data IsMigrated (migrations : List (D → Option D)) (start : D) (s : Schema D) : Type 0 where
    migrated :
        (past later : List (D → Option D))
        → past ++ later ≡ migrations
        → max_version s.versions ≡ length past
        → apply_all past start ≡ some s.tables
        → IsMigrated migrations start s

  drop-past : (past later : List (D → Option D)) → drop (length past) (past ++ later) ≡ later
  drop-past [] later = refl
  drop-past (m ∷ past) later = drop-past past later

  -- One migration is recorded and its tables are kept, or neither.
  abbrev pub Stepped : ℕ → (D → Option D) → Schema D → Bool × Schema D → Type 0
  Stepped version m s r =
      ((r.0 ≡ true) × (r.1.versions ≡ s.versions) × (r.1.tables ≡ s.tables))
      ⊎ ((r.0 ≡ false)
          × (r.1.versions ≡ s.versions ++ version ∷ [])
          × (m s.tables ≡ some r.1.tables))

  execute_migration-Stepped :
      (version : ℕ) (m : D → Option D) (o : Option D) (faults : List Bool) (s : Schema D)
      → m s.tables ≡ o
      → Stepped version m s (execute_migration version o faults s)
  unfolding execute_migration commit
  execute_migration-Stepped version m none faults s e = inl (refl, refl, refl)
  execute_migration-Stepped version m (some tables) faults s e =
      choose (next_fault faults).0 (next_fault (next_fault faults).1).0
    where
      choose :
          (insert_fails commit_fails : Bool)
          → Stepped version m s (
              if insert_fails
              then (true, with_faults (next_fault faults).1 s)
              else (if commit_fails
                  then (true, with_faults (next_fault (next_fault faults).1).1 s)
                  else (
                    false,
                    record {
                      versions = s.versions ++ version ∷ [];
                      tables = tables;
                      faults = (next_fault (next_fault faults).1).1;
                    },
                  )))
      choose true commit_fails = inl (refl, refl, refl)
      choose false true = inl (refl, refl, refl)
      choose false false = inr (refl, refl, e)

  migrate-Stepped :
      (version : ℕ) (m : D → Option D) (s : Schema D) → Stepped version m s (migrate version m s)
  unfolding migrate
  migrate-Stepped version m s =
      choose (next_fault s.faults).0
        (execute_migration-Stepped version m (m s.tables) (next_fault s.faults).1 s refl)
    where
      choose :
          (begin_fails : Bool)
          → Stepped version m s (execute_migration version (m s.tables) (next_fault s.faults).1 s)
          → Stepped version m s (
              if begin_fails
              then (true, with_faults (next_fault s.faults).1 s)
              else execute_migration version (m s.tables) (next_fault s.faults).1 s)
      choose true went = inl (refl, refl, refl)
      choose false went = went

  -- Where a run has come to: if there was no error, to the end.
  abbrev pub Progressed : List (D → Option D) → D → Bool × Schema D → Type 0
  Progressed migrations start r =
      IsMigrated migrations start r.1
      × ((r.0 ≡ true) ⊎ (apply_all migrations start ≡ some r.1.tables))

  migrate_from-Progressed :
      (migrations past later : List (D → Option D)) (start : D) (s : Schema D) (index : ℕ)
      → past ++ later ≡ migrations
      → length past ≡ index
      → max_version s.versions ≡ index
      → apply_all past start ≡ some s.tables
      → Progressed migrations start (migrate_from index later s)
  unfolding migrate_from
  migrate_from-Progressed migrations past [] start s index e l v a = (
    migrated past [] e (v ∙ sym l) a,
    inr (ap (λ ms. apply_all ms start) (sym e ∙ append-nil past) ∙ a),
  )
  migrate_from-Progressed migrations past (m ∷ later) start s index e l v a =
      go (migrate (index + 1) m s) (migrate-Stepped (index + 1) m s) (λ s1.
        migrate_from-Progressed migrations (past ++ m ∷ []) later start s1 (index + 1)
          (append_assoc past (m ∷ []) later ∙ e) (length-append past (m ∷ []) ∙ omega arith))
    where
      go :
          (r : Bool × Schema D)
          → Stepped (index + 1) m s r
          → ((s1 : Schema D)
              → max_version s1.versions ≡ index + 1
              → apply_all (past ++ m ∷ []) start ≡ some s1.tables
              → Progressed migrations start (migrate_from (index + 1) later s1))
          → Progressed migrations start
              (if r.0 then (true, r.1) else migrate_from (index + 1) later r.1)
      go (failed, s1) (inl (f, vs, t)) more = rw f (
        migrated past (m ∷ later) e (ap max_version vs ∙ v ∙ sym l) (a ∙ ap some (sym t)),
        inl refl,
      )
      go (failed, s1) (inr (f, vs, t)) more = rw f (
          more s1
            (ap max_version vs ∙ max_version-append s.versions (index + 1) (rw v (omega arith)))
            (apply_all-snoc past m start s.tables a ∙ t))

  migrate_from-done :
      (later : List (D → Option D)) (t : D) (vs : List ℕ) (d : D) (index : ℕ)
      → apply_all later d ≡ some t
      → (migrate_from index later (record { versions = vs; tables = d; faults = [] })).0 ≡ false
  unfolding migrate_from migrate execute_migration commit
  migrate_from-done [] t vs d index a = refl
  migrate_from-done (m ∷ later) t vs d index a =
      go (m d) a (λ d1. migrate_from-done later t (vs ++ (index + 1) ∷ []) d1 (index + 1))
    where
      go :
          (o : Option D)
          → elim o [ none ↦ none | some d1 ↦ apply_all later d1 ] ≡ some t
          → ((d1 : D)
              → apply_all later d1 ≡ some t
              → (migrate_from
                  (index + 1)
                  later
                  (record { versions = vs ++ (index + 1) ∷ []; tables = d1; faults = [] })).0
                ≡ false)
          → (let r =
                execute_migration
                  (index + 1)
                  o
                  []
                  (record { versions = vs; tables = d; faults = [] }) in
              let rest = migrate_from (index + 1) later r.1 in if r.0 then (true, r.1) else rest).0
            ≡ false
      go none h again = cc
      go (some d1) h again = again d1 h

  apply_all-append :
      (past later : List (D → Option D)) (start d t : D)
      → apply_all past start ≡ some d
      → apply_all (past ++ later) start ≡ some t
      → apply_all later d ≡ some t
  apply_all-append [] later start d t p e = let same : d ≡ start = cc in rw same e
  apply_all-append (m ∷ past) later start d t p e =
      go (m start) (λ d1. apply_all-append past later d1 d t) p e
    where
      go :
          (o : Option D)
          → ((d1 : D)
              → apply_all past d1 ≡ some d
              → apply_all (past ++ later) d1 ≡ some t
              → apply_all later d ≡ some t)
          → elim o [ none ↦ none | some d1 ↦ apply_all past d1 ] ≡ some d
          → elim o [ none ↦ none | some d1 ↦ apply_all (past ++ later) d1 ] ≡ some t
          → apply_all later d ≡ some t
      go none again p e = cc
      go (some d1) again p e = again d1 p e

  -- Whatever happens to a run, the tables stay those of a first part of the migrations, whose last
  -- version is recorded; where a run gives no error they are those of all migrations.
  pub run_migrations-Progressed :
      (migrations : List (D → Option D)) (start : D) (s : Schema D)
      → IsMigrated migrations start s
      → Progressed migrations start (run_migrations migrations s)
  unfolding run_migrations
  run_migrations-Progressed migrations start s (migrated past later e v a) =
      choose (next_fault s.faults).0 (next_fault (next_fault s.faults).1).0 (next_fault s.faults).1
        (next_fault (next_fault s.faults).1).1
    where
      rest-Progressed :
          (faults : List Bool)
          → Progressed migrations start (
              migrate_from
                (max_version s.versions)
                (drop (max_version s.versions) migrations)
                (with_faults faults s))
      rest-Progressed faults =
          subst
            (λ later1.
              Progressed migrations start
                (migrate_from (max_version s.versions) later1 (with_faults faults s)))
            (sym (drop-past past later)
              ∙ ap (λ n. drop n (past ++ later)) (sym v)
              ∙ ap (drop (max_version s.versions)) e)
            (migrate_from-Progressed migrations past later start (with_faults faults s)
              (max_version s.versions) e (sym v) refl a)

      choose :
          (create_fails read_fails : Bool) (f1 f2 : List Bool)
          → Progressed migrations start (
              if create_fails
              then (true, with_faults f1 s)
              else (if read_fails
                  then (true, with_faults f2 s)
                  else migrate_from
                      (max_version s.versions)
                      (drop (max_version s.versions) migrations)
                      (with_faults f2 s)))
      choose true read_fails f1 f2 = (migrated past later e v a, inl refl)
      choose false true f1 f2 = (migrated past later e v a, inl refl)
      choose false false f1 f2 = rest-Progressed f2

  run_migrations-done :
      (migrations : List (D → Option D)) (start end d : D) (vs : List ℕ)
      → IsMigrated migrations start (record { versions = vs; tables = d; faults = [] })
      → apply_all migrations start ≡ some end
      → (run_migrations migrations (record { versions = vs; tables = d; faults = [] })).0 ≡ false
  unfolding run_migrations
  run_migrations-done migrations start end d vs (migrated past later e v a) h =
      migrate_from-done (drop (max_version vs) migrations) end vs d (max_version vs) (
        ap (λ ms. apply_all ms d)
          (ap (drop (max_version vs)) (sym e)
            ∙ ap (λ n. drop n (past ++ later)) v
            ∙ drop-past past later)
        ∙ apply_all-append past later start d end a (ap (λ ms. apply_all ms start) e ∙ h))

  -- If the migrations can be applied at all, then a run in which no other statement fails completes
  -- them, however many runs before it have failed, and leaves the tables of an uninterrupted run.
  pub run_migrations_completes :
      (migrations : List (D → Option D)) (start end d : D) (vs : List ℕ)
      → IsMigrated migrations start (record { versions = vs; tables = d; faults = [] })
      → apply_all migrations start ≡ some end
      → ((run_migrations migrations (record { versions = vs; tables = d; faults = [] })).0 ≡ false)
        × ((run_migrations migrations (record { versions = vs; tables = d; faults = [] })).1.tables
            ≡ end)
  run_migrations_completes migrations start end d vs h a =
      finish (run_migrations migrations (record { versions = vs; tables = d; faults = [] }))
        (run_migrations-done migrations start end d vs h a)
        (run_migrations-Progressed migrations start
          (record { versions = vs; tables = d; faults = [] }) h)
    where
      finish :
          (r : Bool × Schema D)
          → r.0 ≡ false
          → Progressed migrations start r
          → (r.0 ≡ false) × (r.1.tables ≡ end)
      finish r ok (g, inl failed) = ground arith
      finish r ok (g, inr all) = (ok, cc)
