-- ===== src/Config/Loading.antt =====
-- When Load of config/config.go gives a configuration, and what Validate leaves of it.
use renovate_docker_operator.Prelude.{
  ◌≤◌, String, ◌≡◌, ◌↔◌, ◌⊎◌, Bool, true, false, Option, none, some, List, arith, pos_part, ◌*◌, ℤ,
  pos, negsuc, str_eq, if◌then◌else◌,
}
use renovate_docker_operator.Config.{
  Config, Library, Loaded, loaded, refused, no_token, no_endpoint, parse_container_extra_hosts,
  config_of, required, with_secret, with_hosts, load, values_of, valid_interval, valid_image,
  validate, minute, bad_image,
}

abbrev pub is_loaded : Loaded → Bool
is_loaded (loaded c values) = true
is_loaded (refused e) = false

abbrev pub is_there : {A : Type 0} → Option A → Bool
is_there none = false
is_there (some a) = true

module _ (lib : Library) (env : String → String) where
  abbrev IsGiven : String → Type 0
  IsGiven key = str_eq (env key) "" ≡ false

  required-loaded :
      (hosts : List String) (secret : String)
      → (is_loaded (required lib env (config_of lib env hosts secret)) ≡ true)
        ↔ (IsGiven "ROP_PLATFORM_ENDPOINT" × IsGiven "RENOVATE_TOKEN")
  unfolding required config_of
  required-loaded hosts secret =
      go (str_eq (env "ROP_PLATFORM_ENDPOINT") "") (str_eq (env "RENOVATE_TOKEN") "")
    where
      go :
          (no_end no_tok : Bool)
          → (is_loaded (
                if no_end
                then refused no_endpoint
                else if no_tok
                then refused no_token
                else loaded
                    (config_of lib env hosts secret)
                    (values_of lib env (config_of lib env hosts secret)))
              ≡ true)
            ↔ ((no_end ≡ false) × (no_tok ≡ false))
      go true no_tok = ground arith
      go false true = ground arith
      go false false = ground arith

  -- Load gives a configuration exactly when the extra hosts parse, a session secret is set or can be
  -- generated, and the platform's endpoint and token are set.
  pub load-loaded_iff : (is_loaded (load lib env) ≡ true) ↔ (
      (is_there (parse_container_extra_hosts (env "ROP_CONTAINER_EXTRA_HOSTS")) ≡ true)
      × (IsGiven "ROP_SESSION_SECRET" ⊎ (is_there lib.random ≡ true))
      × IsGiven "ROP_PLATFORM_ENDPOINT"
      × IsGiven "RENOVATE_TOKEN")
  unfolding load with_hosts with_secret
  load-loaded_iff = with_parsed (parse_container_extra_hosts (env "ROP_CONTAINER_EXTRA_HOSTS"))
    where
      Conditions : (parsed empty : Bool) → Option String → Type 0
      Conditions parsed empty random =
          (parsed ≡ true)
          × ((empty ≡ false) ⊎ (is_there random ≡ true))
          × IsGiven "ROP_PLATFORM_ENDPOINT"
          × IsGiven "RENOVATE_TOKEN"

      with_random :
          (hosts : List String) (empty : Bool) (random : Option String)
          → (is_loaded (
                with_secret lib env hosts
                  (if empty then random else some (env "ROP_SESSION_SECRET")))
              ≡ true)
            ↔ Conditions true empty random
      with_random hosts true none = ground arith
      with_random hosts true (some secret) =
          let r = required-loaded hosts secret in ground (arith, r)
      with_random hosts false random =
          let r = required-loaded hosts (env "ROP_SESSION_SECRET") in ground (arith, r)

      with_parsed :
          (hosts : Option (List String))
          → (is_loaded (with_hosts lib env hosts) ≡ true)
            ↔ Conditions (is_there hosts) (str_eq (env "ROP_SESSION_SECRET") "") lib.random
      with_parsed none = ground arith
      with_parsed (some hosts) = with_random hosts (str_eq (env "ROP_SESSION_SECRET") "") lib.random

-- A configuration is valid exactly when the poller is off, or the image parses and the poll interval
-- is not positive or at least 15 minutes.
pub validate-valid_iff :
    (c : Config) (parses : String → Bool)
    → (validate (some c) (some parses) ≡ none) ↔ (
        (c.check_update_runner_image ≡ false)
        ⊎ ((parses c.renovate_image ≡ true)
            × ((pos_part c.image_update_poll_interval ≡ 0)
                ⊎ (15 * minute ≤ pos_part c.image_update_poll_interval))))
unfolding validate valid_image valid_interval
validate-valid_iff c parses =
    go c.check_update_runner_image (parses c.renovate_image) c.image_update_poll_interval
  where
    go :
        (on parsed : Bool) (interval : ℤ)
        → ((if on then if parsed then valid_interval interval else some bad_image else none) ≡ none)
          ↔ ((on ≡ false)
              ⊎ ((parsed ≡ true) × ((pos_part interval ≡ 0) ⊎ (15 * minute ≤ pos_part interval))))
    go false parsed interval = ground arith
    go true false interval = ground arith
    go true true (pos n) = ground arith
    go true true (negsuc n) = ground arith
