-- ===== src/Executor/Orphans/Slots.antt =====
-- What reconcileOrphans and Stop of internal/executor/docker.go do to the slots.
use mathlib.Core.List.{Memᴰ}
use renovate_docker_operator.Prelude.{
  ℕ, ◌-◌, String, ◌≡◌, inl, inr, refl, ◌∙◌, Bool, true, false, ◌||◌, Option, none, some, List, [],
  ◌∷◌, arith, ltb, str_eq, eq_iff, if◌then◌else◌, any, Dict, lookup, put, lookup-put, lookup-delete,
}
use renovate_docker_operator.Api.{running, only_status}
use renovate_docker_operator.Executor.State.{World, Executor}
use renovate_docker_operator.Executor.Exit.{handle_container_exit}
use renovate_docker_operator.Executor.Exit.Effects.{handle_container_exit-slots}
use renovate_docker_operator.Executor.Orphans.{
  Summary, Daemon, is_stopped, is_tracked, adopt, handle_running, handle_orphan, reconcile_one,
  reconcile_listed, after_list, reconcile_orphans, stop_all, stop,
}

-- The daemon lists the container as running, with this project, and no slot had it.
abbrev pub IsOrphan : Dict String → String → Summary → Type 0
IsOrphan slots project c =
    (c.state ≡ "running") × (c.labels.project ≡ project) × (is_tracked slots c.id ≡ false)

-- What may become of a slot: it stays, it is freed, or it gets an orphan of the list.
pub data Slot (slots : Dict String) (containers : List Summary) (project : String)
    (before : Option String) : Option String → Type 0 where
  kept : Slot slots containers project before before
  freed : Slot slots containers project before none
  adopted :
      (c : Summary)
      → Memᴰ c containers
      → IsOrphan slots project c
      → Slot slots containers project before (some c.id)

module _ {W : Type 0} (rt : World W) (daemon : Daemon W) (slots : Dict String)
    (project : String) where
  -- The change by one container of the list.
  data Change (c : Summary) (before : Option String) : Option String → Type 0 where
    same : (after : Option String) → after ≡ before → Change c before after
    gone : (after : Option String) → after ≡ none → Change c before after
    taken :
        (after : Option String)
        → after ≡ some c.id
        → IsOrphan slots project c
        → Change c before after

  exit-Change :
      (c : Summary) (e : Executor W)
      → Change c
          (lookup project e.running)
          (lookup project (handle_container_exit rt c.id e).running)
  exit-Change c e = elim (handle_container_exit-slots rt c.id e project) [
    | inl s ↦ same _ s
    | inr g ↦ gone _ g
  ]

  adopt-Change :
      (c : Summary) (e : Executor W)
      → str_eq c.state "running" ≡ true
      → is_tracked slots c.id ≡ false
      → Change c (lookup project e.running) (lookup project (adopt rt daemon c e).running)
  unfolding adopt
  adopt-Change c e r t =
      choose (str_eq c.labels.project "") (str_eq c.labels.job_name "")
        (str_eq c.labels.project project) refl
    where
      put_slot :
          (b : Bool)
          → str_eq c.labels.project project ≡ b
          → Change c
              (lookup project e.running)
              (lookup project (put c.labels.project c.id e.running))
      put_slot true q = taken _ (lookup-put c.labels.project project c.id e.running ∙ rw q refl) (
        ground (arith, eq_iff c.state "running"),
        ground (arith, eq_iff c.labels.project project),
        t,
      )
      put_slot false q = same _ (lookup-put c.labels.project project c.id e.running ∙ rw q refl)

      choose :
          (unnamed jobless here : Bool)
          → str_eq c.labels.project project ≡ here
          → Change c (lookup project e.running) (
              lookup project
                (if unnamed
                  then e
                  else if jobless
                  then record e { running = put c.labels.project c.id e.running }
                  else record e {
                    running = put c.labels.project c.id e.running;
                    world =
                        (rt.update_project_status c.labels.project c.labels.job_name
                          (only_status running)
                          e.world).1;
                  }).running)
      choose true jobless here q = same _ refl
      choose false true here q = put_slot here q
      choose false false here q = put_slot here q

  running-Change :
      (c : Summary) (o : Option ℕ) (e : Executor W)
      → str_eq c.state "running" ≡ true
      → is_tracked slots c.id ≡ false
      → Change c
          (lookup project e.running)
          (lookup project (handle_running rt daemon c o e).running)
  unfolding handle_running
  running-Change c none e r t = same _ refl
  running-Change c (some started_at) e r t =
      choose (ltb e.settings.job_timeout ((rt.now e.world).0 - started_at))
    where
      choose :
          (late : Bool)
          → Change c (lookup project e.running) (
              lookup project
                (if late
                  then record e { world = daemon.container_kill c.id (rt.now e.world).1 }
                  else adopt rt daemon c (record e { world = (rt.now e.world).1 })).running)
      choose true = same _ refl
      choose false = adopt-Change c (record e { world = (rt.now e.world).1 }) r t

  reconcile_one-Change :
      (c : Summary) (e : Executor W)
      → Change c
          (lookup project e.running)
          (lookup project (reconcile_one rt daemon slots c e).running)
  unfolding reconcile_one handle_orphan
  reconcile_one-Change c e =
      choose (is_tracked slots c.id) (str_eq c.state "running") (is_stopped c) refl refl
    where
      choose :
          (tracked up stopped : Bool)
          → is_tracked slots c.id ≡ tracked
          → str_eq c.state "running" ≡ up
          → Change c (lookup project e.running) (
              lookup project
                (if tracked
                  then if stopped then handle_container_exit rt c.id e else e
                  else if up
                  then handle_running rt daemon c c.labels.started_at e
                  else if stopped
                  then handle_container_exit rt c.id e
                  else e).running)
      choose true up true t r = exit-Change c e
      choose true up false t r = same _ refl
      choose false true stopped t r = running-Change c c.labels.started_at e r t
      choose false false true t r = exit-Change c e
      choose false false false t r = same _ refl

  Slot-later :
      (c : Summary) (containers : List Summary) (before mid after : Option String)
      → Change c before mid
      → Slot slots containers project mid after
      → Slot slots (c ∷ containers) project before after
  Slot-later c containers before mid after (same m e) kept = rw e kept
  Slot-later c containers before mid after (gone m e) kept = rw e freed
  Slot-later c containers before mid after (taken m e orphan) kept =
      rw e (adopted c (Memᴰ.head refl) orphan)
  Slot-later c containers before mid after change freed = freed
  Slot-later c containers before mid after change (adopted d listed orphan) =
      adopted d (Memᴰ.tail listed) orphan

  reconcile_listed-Slot :
      (containers : List Summary) (e : Executor W)
      → Slot slots containers project
          (lookup project e.running)
          (lookup project (reconcile_listed rt daemon slots containers e).running)
  unfolding reconcile_listed
  reconcile_listed-Slot [] e = kept
  reconcile_listed-Slot (c ∷ containers) e =
      Slot-later c containers _ _ _ (reconcile_one-Change c e)
        (reconcile_listed-Slot containers (reconcile_one rt daemon slots c e))

module _ {W : Type 0} (rt : World W) (daemon : Daemon W) where
  -- However the daemon's list looks, a reconciliation leaves a slot as it was, frees it, or gives it a
  -- container that the list has as running for the project and that no slot had before; where there
  -- is no list no slot changes.
  pub reconcile_orphans-Slot :
      (e : Executor W) (project : String) (containers : List Summary)
      → (daemon.container_list e.world).0 ≡ some containers
      → Slot e.running containers project
          (lookup project e.running)
          (lookup project (reconcile_orphans rt daemon e).1.running)
  unfolding reconcile_orphans after_list
  reconcile_orphans-Slot e project containers listed = rw listed (
      reconcile_listed-Slot rt daemon e.running project containers
        (record e { world = (daemon.container_list e.world).1 }))

  has_slot : String → Dict String → Bool
  has_slot project slots = any (λ s. str_eq s.0 project) slots

  lookup-has_slot :
      (project : String) (slots : Dict String)
      → (if has_slot project slots then none else lookup project slots) ≡ none
  unfolding lookup has_slot
  lookup-has_slot project [] = refl
  lookup-has_slot project ((q, container) ∷ slots) = ground (arith, lookup-has_slot project slots)

  lookup-stop_all :
      (slots : Dict String) (e : Executor W) (project : String)
      → lookup project (stop_all rt daemon slots e).running
        ≡ (if has_slot project slots then none else lookup project e.running)
  unfolding stop_all has_slot
  lookup-stop_all [] e project = refl
  lookup-stop_all ((q, container) ∷ slots) e project =
      lookup-stop_all slots _ project
      ∙ rw (lookup-delete q project e.running) (choose (str_eq q project) (has_slot project slots))
    where
      choose :
          (here later : Bool)
          → (if later then none else if here then none else lookup project e.running)
            ≡ (if here || later then none else lookup project e.running)
      choose true true = refl
      choose true false = refl
      choose false true = refl
      choose false false = refl

  -- After Stop no project has a slot.
  pub stop_frees :
      (e : Executor W) (project : String) → lookup project (stop rt daemon e).running ≡ none
  unfolding stop
  stop_frees e project = lookup-stop_all e.running e project ∙ lookup-has_slot project e.running
