-- ===== src/Discovery/Untouched.antt =====
-- ReconcileProjects of internal/statestore/sqlite.go and the table of the discoveries.
use renovate_docker_operator.Prelude.{String, ◌≡◌, ◌∙◌, refl, List, [], ◌∷◌, ℕ, not, any, map, ap}
use renovate_docker_operator.StateStore.Db.{
  Db, Codec, Session, not_unique, update, execute, query, transaction, ◌>>◌,
}
use renovate_docker_operator.StateStore.Db.Rules.{
  Does, Succeeds, update-Does, execute-Does, checked-Outcome, query-Does, reads-Does,
  yields-Outcome, transaction-Outcome, Outcome-Succeeds, follow-Succeeds, Succeeds-map,
}
use renovate_docker_operator.StateStore.Projects.{
  is_row, of_job, delete_row, delete_each, insert_row, insert_each, removed_names, new_names,
  reconcile_projects,
}

module _ (job : String) where
  delete_each_untouched :
      (names : List String) (s : Session)
      → Succeeds (λ u d. d.discovery ≡ s.db.discovery) (delete_each job names s)
  unfolding delete_each
  delete_each_untouched [] s = refl
  delete_each_untouched (p ∷ names) s =
      follow-Succeeds (λ u d. d.discovery ≡ s.db.discovery) _ _ (update (delete_row job p) s)
        (Outcome-Succeeds s.db _ (update (delete_row job p) s)
          (update-Does (λ d u d1. d1.discovery ≡ d.discovery) (delete_row job p) (λ d. refl) s))
        (λ u s1 q.
          Succeeds-map _ _ (delete_each job names s1) (λ a d h. h ∙ q)
            (delete_each_untouched names s1))

  module _ (codec : Codec) (now : ℕ) where
    insert_each_untouched :
        (names : List String) (s : Session)
        → Succeeds (λ u d. d.discovery ≡ s.db.discovery) (insert_each codec now job names s)
    unfolding insert_each
    insert_each_untouched [] s = refl
    insert_each_untouched (p ∷ names) s =
        follow-Succeeds (λ u d. d.discovery ≡ s.db.discovery) _ _
          (execute (insert_row codec now job p) s)
          (Outcome-Succeeds s.db _ (execute (insert_row codec now job p) s) (
            execute-Does (λ d u d1. d1.discovery ≡ d.discovery) (insert_row codec now job p)
              (λ d.
                checked-Outcome _ (not (any (is_row job p) d.projects)) not_unique _ d (λ e. refl))
              s))
          (λ u s1 q.
            Succeeds-map _ _ (insert_each codec now job names s1) (λ a d h. h ∙ q)
              (insert_each_untouched names s1))

    change_untouched :
        (removed added : List String) (s : Session)
        → Succeeds
            (λ u d. d.discovery ≡ s.db.discovery)
            ((delete_each job removed >> insert_each codec now job added) s)
    change_untouched removed added s =
        follow-Succeeds (λ u d. d.discovery ≡ s.db.discovery) _ _ (delete_each job removed s)
          (delete_each_untouched removed s)
          (λ u s1 q.
            Succeeds-map _ _ (insert_each codec now job added s1) (λ a d h. h ∙ q)
              (insert_each_untouched added s1))

    -- The reconciliation of the projects changes no discovery.
    pub reconcile_projects_untouched :
        (projects : List String)
        → Does
            (λ d removed d1. d1.discovery ≡ d.discovery)
            (reconcile_projects codec now job projects)
    unfolding reconcile_projects
    reconcile_projects_untouched projects =
        reads-Does (λ d existing. Unit {0}) (λ d removed d1. d1.discovery ≡ d.discovery)
          (query (λ d. map (λ r. r.full_name) (of_job job d))) _
          (query-Does _ (λ d. map (λ r. r.full_name) (of_job job d)) (λ d. (tt, refl)))
          (λ existing s known.
            yields-Outcome s.db (λ u d1. d1.discovery ≡ s.db.discovery)
              (λ removed d1. d1.discovery ≡ s.db.discovery) (removed_names existing projects)
              (transaction
                (delete_each job (removed_names existing projects)
                  >> insert_each codec now job (new_names existing projects))
                s)
              (λ a d1 q. q)
              (transaction-Outcome (λ d u d1. d1.discovery ≡ d.discovery) _ s
                (λ s1 same.
                  Succeeds-map _ _
                    ((delete_each job (removed_names existing projects)
                        >> insert_each codec now job (new_names existing projects))
                      s1)
                    (λ a d h. h ∙ ap (λ (d : Db). d.discovery) same)
                    (change_untouched (removed_names existing projects)
                      (new_names existing projects) s1))))
