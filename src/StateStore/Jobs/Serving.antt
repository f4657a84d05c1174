-- ===== src/StateStore/Jobs/Serving.antt =====
-- The webhook handler of internal/webhook/forgejo.go over the store of
-- internal/statestore/sqlite.go: the store as the interface that the handler takes.
use renovate_docker_operator.Prelude.{
  ℕ, ◌<◌, String, ◌≡◌, refl, sym, ap, ◌∙◌, Bool, true, false, Option, none, some, List, contains,
  eq_refl, arith, if◌then◌else◌,
}
use renovate_docker_operator.Api.{ProjectStatus, RenovateStatusUpdate, only_status, scheduled}
use renovate_docker_operator.Resilience.{Manager}
use renovate_docker_operator.Webhook.Event.{ForgejoEvent}
use renovate_docker_operator.Webhook.Handler.{
  body_read, Request, Updated, update_done, update_missing, update_failed, Store, Handler,
  handle_forgejo,
}
use renovate_docker_operator.Webhook.Handler.Safety.{
  IsKept, stored, queued, handle_forgejo_accepted-IsKept,
}
use renovate_docker_operator.StateStore.Db.{
  ProjectRow, Db, Codec, not_found, project_not_found, not_unique, failure, Result, ok, err,
  Session, Done,
}
use renovate_docker_operator.StateStore.Db.Rules.{Outcome}
use renovate_docker_operator.StateStore.Projects.{update_project_status}
use renovate_docker_operator.StateStore.Projects.Reconcile.{find_row, is_some}
use renovate_docker_operator.StateStore.Projects.Updates.{
  IsCodec, year_10000, map_option, is_same, shown, applied, written, update_project_status_lem,
}
use renovate_docker_operator.StateStore.Settings.{
  Crypto, is_webhook_signature_valid, is_webhook_token_valid,
}
use renovate_docker_operator.StateStore.Jobs.{list_renovate_jobs_full}

abbrev listed : {A : Type 0} → Result A → Option A
listed (ok a) = some a
listed (err e) = none

-- errors.Is with ErrProjectNotFound
abbrev pub updated : Result Done → Updated
updated (ok u) = update_done
updated (err project_not_found) = update_missing
updated (err not_found) = update_failed
updated (err not_unique) = update_failed
updated (err failure) = update_failed

module _ {K : Type 0} (codec : Codec) (crypto : Crypto K) (webhook_tokens : List String) (now : ℕ)
    (read_faults write_faults : List Bool) where
  -- The store's methods on the tables, whose reads and whose update may fail.
  abbrev pub served : Store Db
  served = record {
    list_renovate_jobs_full =
        λ d. listed (list_renovate_jobs_full codec (record { db = d; faults = read_faults })).0;
    verifier = λ d. record {
      signature_valid =
          λ job signature body. is_webhook_signature_valid crypto webhook_tokens signature body;
      token_valid = λ job token. is_webhook_token_valid webhook_tokens token;
    };
    update_project_status = λ project job u d.
        let (r, s) =
          update_project_status codec now project job u
            (record { db = d; faults = write_faults }) in
        (updated r, s.db);
  }

  -- Some job's project of that name reads as scheduled, and nothing else of the projects reads
  -- otherwise than before; or the project waits for a replay.
  pub data IsServed (project : String) (h h' : Handler Db) : Type 0 where
    now_scheduled :
        (job : String) (p : ProjectStatus)
        → shown codec (find_row job project h'.world.projects) ≡ some p
        → p.status ≡ scheduled
        → ((j n : String)
            → is_same job project j n ≡ false
            → shown codec (find_row j n h'.world.projects)
              ≡ shown codec (find_row j n h.world.projects))
        → IsServed project h h'
    waiting :
        (m : Manager)
        → h'.resilience ≡ some m
        → contains project m.pending_replay ≡ true
        → IsServed project h h'

  module _ (laws : IsCodec codec) (early : now < year_10000) where
    written-scheduled :
        (job project : String) (o : Option ProjectRow) (after : Option ProjectStatus)
        → is_some o ≡ true
        → after
          ≡ map_option
              (written codec laws now early job project job project (only_status scheduled))
              (shown codec o)
        → (p : ProjectStatus) × (after ≡ some p) × (p.status ≡ scheduled)
    written-scheduled job project none after h e = ground arith
    written-scheduled job project (some r) after h e =
        (_, e, rw (eq_refl job, eq_refl project) refl)

    written-other :
        (b : Bool) (t : ℕ) (u : RenovateStatusUpdate) (o : Option ProjectStatus)
        → b ≡ false
        → map_option (λ p. if b then applied codec t u p else p) o ≡ o
    written-other b t u none e = refl
    written-other b t u (some p) e = rw e refl

    update-IsServed :
        (project job : String) (h h' : Handler Db) (r : Result Done × Session)
        → ((j n : String)
            → Outcome h.world
                (λ v d1.
                  (is_some (find_row job project h.world.projects) ≡ true)
                  × (shown codec (find_row j n d1.projects)
                      ≡ map_option
                          (written codec laws now early job project j n (only_status scheduled))
                          (shown codec (find_row j n h.world.projects))))
                r.0
                r.1.db)
        → updated r.0 ≡ update_done
        → r.1.db ≡ h'.world
        → IsServed project h h'
    update-IsServed project job h h' (ok u, s) did e same =
        let there = did job project in
        let (p, reads, is) =
          written-scheduled job project (find_row job project h.world.projects) _ there.0 there.1 in
        now_scheduled job p
          (ap (λ (d : Db). shown codec (find_row job project d.projects)) (sym same) ∙ reads) is
          (λ j n other.
            ap (λ (d : Db). shown codec (find_row j n d.projects)) (sym same)
            ∙ (did j n).1
            ∙ written-other (is_same job project j n) now (only_status scheduled) _ other)
    update-IsServed project job h h' (err project_not_found, s) did e same = cc
    update-IsServed project job h h' (err not_found, s) did e same = cc
    update-IsServed project job h h' (err not_unique, s) did e same = cc
    update-IsServed project job h h' (err failure, s) did e same = cc

    -- Over this store, a webhook that is answered with 202 leaves its project with the status
    -- scheduled in the tables, as every later query reads it, and every other project as it was; or
    -- the project waits in the replay queue.
    pub handle_forgejo-served :
        (decode : String → Option ForgejoEvent) (clock : ℕ) (r : Request) (h : Handler Db)
        (body : String) (payload : ForgejoEvent)
        → r.body ≡ body_read body
        → decode body ≡ some payload
        → (handle_forgejo served decode clock r h).0.status ≡ 202
        → IsServed payload.repository h (handle_forgejo served decode clock r h).1
    handle_forgejo-served decode clock r h body payload e d accepted =
        of_kept (handle_forgejo_accepted-IsKept served decode clock r h body payload e d accepted)
      where
        of_kept :
            {h' : Handler Db}
            → IsKept served payload.repository h h'
            → IsServed payload.repository h h'
        of_kept (stored job h' went) =
            update-IsServed payload.repository job h h'
              (update_project_status codec now payload.repository job (only_status scheduled)
                (record { db = h.world; faults = write_faults }))
              (λ j n.
                update_project_status_lem codec laws now early job payload.repository j n
                  (only_status scheduled) (record { db = h.world; faults = write_faults }))
              (ap (λ x. x.0) went) (ap (λ x. x.1) went)
        of_kept (queued h' m is_m waits) = waiting m is_m waits
