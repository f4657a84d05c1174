-- ===== src/StateStore/Settings/Secret.antt =====
-- The webhook secret over restarts: ensureWebhookSecret of internal/statestore/sqlite.go.
use Prim.Native.String.{len}
use renovate_docker_operator.Prelude.{
  String, ◌≡◌, refl, ◌∙◌, ap, sym, subst, Bool, true, false, Option, none, some, List, lookup,
  lookup-put, leb, str_eq, if◌then◌else◌,
}
use renovate_docker_operator.StateStore.Db.{Db, Session, return, ◌>>=◌, ◌>>◌, query, update}
use renovate_docker_operator.StateStore.Db.Rules.{
  Succeeds, query-Does, update-Does, Outcome-Succeeds, follow-Succeeds, Succeeds-map,
}
use renovate_docker_operator.StateStore.Settings.{
  get_setting, put_setting, set_setting, tokens, stored_or_generated, overridden, log_secret,
  is_none, ensure_webhook_secret,
}

abbrev pub stored_secret : Db → Option String
stored_secret d = lookup "webhook_secret" d.settings

set_setting-Succeeds :
    (value : String) (s : Session)
    → Succeeds (λ u d. stored_secret d ≡ some value) (set_setting "webhook_secret" value s)
unfolding set_setting
set_setting-Succeeds value s =
    Outcome-Succeeds s.db _ (update (put_setting "webhook_secret" value) s) (
      update-Does (λ d u d1. stored_secret d1 ≡ some value) (put_setting "webhook_secret" value)
        (λ d. lookup-put "webhook_secret" "webhook_secret" value d.settings) s)

get_setting-Succeeds :
    (s : Session)
    → Succeeds
        (λ found d. (found ≡ stored_secret s.db) × (d ≡ s.db))
        (get_setting "webhook_secret" s)
unfolding get_setting
get_setting-Succeeds s =
    Outcome-Succeeds s.db _ (query (λ d. lookup "webhook_secret" d.settings) s) (
      query-Does (λ d found d1. (found ≡ stored_secret d) × (d1 ≡ d))
        (λ d. lookup "webhook_secret" d.settings) (λ d. (refl, refl)) s)

-- The secret that is loaded, or else generated.
abbrev pub first_of : Option String → Option String → Option String
first_of none random = random
first_of (some secret) random = some secret

stored_or_generated-Succeeds :
    (random stored : Option String) (s : Session)
    → stored ≡ stored_secret s.db
    → Succeeds
        (λ secret d. (stored_secret d ≡ some secret) × (first_of stored random ≡ some secret))
        (stored_or_generated random stored s)
unfolding stored_or_generated
stored_or_generated-Succeeds random (some secret) s e = (sym e, refl)
stored_or_generated-Succeeds none none s e = tt
stored_or_generated-Succeeds (some secret) none s e =
    follow-Succeeds _ _ _ (set_setting "webhook_secret" secret s) (set_setting-Succeeds secret s)
      (λ u s1 q. (q, refl))

overridden-Succeeds :
    (env secret : String) (s : Session)
    → stored_secret s.db ≡ some secret
    → Succeeds
        (λ final d.
          (stored_secret d ≡ some final) × (final ≡ (if str_eq env "" then secret else env)))
        (overridden env secret s)
unfolding overridden
overridden-Succeeds env secret s e = choose (str_eq env "")
  where
    choose :
        (b : Bool)
        → Succeeds
            (λ final d. (stored_secret d ≡ some final) × (final ≡ (if b then secret else env)))
            ((if b then return secret else (set_setting "webhook_secret" env >> return env)) s)
    choose true = (e, refl)
    choose false =
        follow-Succeeds _ _ _ (set_setting "webhook_secret" env s) (set_setting-Succeeds env s)
          (λ u s1 q. (q, refl))

-- What a start gives, for the secret that was stored before it.
abbrev pub Started : Option String → String → Option String → Option (List String) → Db → Type 0
Started random env stored result d =
    (secret : String) × (first_of stored random ≡ some secret)
    × (stored_secret d ≡ some (if str_eq env "" then secret else env))
    × (result ≡ log_secret (is_none stored) env (if str_eq env "" then secret else env))

-- Every start that succeeds leaves in the settings the secret of the environment, or else the stored
-- one, or else the generated one, and takes its tokens from it, or panics.
pub ensure_webhook_secret_lem :
    (random : Option String) (env : String) (s : Session)
    → Succeeds (Started random env (stored_secret s.db)) (ensure_webhook_secret random env s)
unfolding ensure_webhook_secret
ensure_webhook_secret_lem random env s =
    follow-Succeeds _ _ _ (get_setting "webhook_secret" s) (get_setting-Succeeds s) (λ stored s1 q.
      follow-Succeeds _ _ _ (stored_or_generated random stored s1)
        (stored_or_generated-Succeeds random stored s1 (q.0 ∙ ap stored_secret (sym q.1)))
        (λ secret s2 q2.
          follow-Succeeds _ _ _ (overridden env secret s2) (overridden-Succeeds env secret s2 q2.0)
            (λ final s3 q3.
              subst (λ st. Started random env st (log_secret (is_none stored) env final) s3.db) q.0
                (secret, q2.1, q3.0 ∙ ap some q3.1, ap (log_secret (is_none stored) env) q3.1))))

-- A start without the environment variable, on a stored secret.
restart :
    (random : Option String) (secret : String) (r : Option (List String)) (d : Db)
    → Started random "" (some secret) r d
    → r ≡ (if leb 4 (len secret) then some (tokens secret) else none)
unfolding log_secret
restart random secret r d (loaded, e, stored, result) =
    result ∙ ap (λ o. elim o [ none ↦ none | some x ↦ log_secret false "" x ]) (sym e)

-- The start after one with ROP_WEBHOOK_SECRET set, now without it, has the tokens of that secret if
-- it is at least 4 bytes long, and panics if it is shorter.
pub secret_after_restart :
    (random random' : Option String) (env : String) (s : Session)
    → str_eq env "" ≡ false
    → Succeeds
        (λ r d. r ≡ (if leb 4 (len env) then some (tokens env) else none))
        ((ensure_webhook_secret random env >>= λ first. ensure_webhook_secret random' "") s)
secret_after_restart random random' env s set =
    follow-Succeeds _ _ _ (ensure_webhook_secret random env s)
      (ensure_webhook_secret_lem random env s)
      (λ first s1 (loaded, e, stored, result).
        Succeeds-map _ _ (ensure_webhook_secret random' "" s1)
          (λ r d started. restart random' env r d (
            subst (λ st. Started random' "" st r d)
              (stored ∙ ap (λ b. some (if b then loaded else env)) set) started))
          (ensure_webhook_secret_lem random' "" s1))
