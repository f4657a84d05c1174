-- ===== src/Config/Tests.antt =====
-- Configurations from small environments, and the theorems about them at concrete inputs.
use renovate_docker_operator.Prelude.{
  String, ◌≡◌, ◌↔◌, ◌⊎◌, refl, true, false, none, some, [], ◌∷◌, str_eq, if◌then◌else◌,
  split_commas, trim_space,
}
use renovate_docker_operator.Config.{
  Config, Library, parse_container_extra_hosts, cut_colon, config_of, load,
}
use renovate_docker_operator.Config.Loading.{is_loaded, is_there, load-loaded_iff}

-- The library of an environment that has no numbers.
abbrev lib : Library
lib = record {
  atoi = λ s. none;
  parse_bool = λ s. none;
  parse_duration = λ s. none;
  itoa = λ n. "";
  print_duration = λ d. "";
  random = some "5ec7e7";
}

abbrev env : String → String
env key =
    if str_eq key "ROP_PLATFORM_ENDPOINT"
    then "https://git.example"
    else if str_eq key "RENOVATE_TOKEN"
    then "t"
    else ""

hosts_run :
    (parse_container_extra_hosts " git : host-gateway,, v6:::1"
      ≡ some ("git:host-gateway" ∷ "v6:::1" ∷ []))
    × (parse_container_extra_hosts "git" ≡ none)
unfolding parse_container_extra_hosts split_commas cut_colon trim_space
hosts_run = (refl, refl)

load-loaded_iff_example : (is_loaded (load lib env) ≡ true) ↔ (
    (is_there (parse_container_extra_hosts (env "ROP_CONTAINER_EXTRA_HOSTS")) ≡ true)
    × ((str_eq (env "ROP_SESSION_SECRET") "" ≡ false) ⊎ (is_there lib.random ≡ true))
    × (str_eq (env "ROP_PLATFORM_ENDPOINT") "" ≡ false)
    × (str_eq (env "RENOVATE_TOKEN") "" ≡ false))
load-loaded_iff_example = load-loaded_iff lib env

abbrev defaulted : Config
defaulted = config_of lib env [] "5ec7e7"
