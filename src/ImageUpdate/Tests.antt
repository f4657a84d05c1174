-- ===== src/ImageUpdate/Tests.antt =====
-- Tags and the poller on small inputs, and the theorems about them at concrete inputs.
mod References
mod Registries
use renovate_docker_operator.Prelude.{
  arith, inl, eq_iff, ℕ, suc, ◌==◌, if◌then◌else◌, true, false, String, ◌≡◌, ◌⊎◌, refl, none, some,
  List, [], ◌∷◌, All,
}
use renovate_docker_operator.ImageUpdate.Semver.{
  parse_semver_prefix, tag_of, consider, latest_loop, latest_semver_tag,
}
use renovate_docker_operator.ImageUpdate.Semver.Latest.{Best, Behind, Found, latest_semver_tag_lem}
use renovate_docker_operator.ImageUpdate.Poller.{
  Failure, record_partial_success, Reference, answered, failed, Registry, Poller, tick,
}
use renovate_docker_operator.ImageUpdate.Poller.Ticks.{
  IsDerived, LatestKept, IsObserved, tick-IsObserved,
}

abbrev tags : List String
tags =
    "44.9.0-slim" ∷ "44.11.3" ∷ "44.11.10-slim" ∷ "latest" ∷ "44.11" ∷ "44.11.3-slim" ∷ "44.11.3.1"
    ∷ []

parses :
    parse_semver_prefix "44.11.3-slim"
    ≡ some (record { major = 44; minor = 11; patch = 3; suffix = "-slim" })
unfolding parse_semver_prefix
parses = refl

no_fourth_part : parse_semver_prefix "44.11.3.1" ≡ none
unfolding parse_semver_prefix
no_fourth_part = refl

slim_run : latest_semver_tag tags "-slim" ≡ some "44.11.10-slim"
unfolding latest_semver_tag latest_loop consider parse_semver_prefix
slim_run = refl

latest_semver_tag_lem_example :
    (best : Best) × (latest_semver_tag tags "-slim" ≡ tag_of best)
    × ((best ≡ none) ⊎ Found "-slim" tags best)
    × All (Behind "-slim" best) tags
latest_semver_tag_lem_example = latest_semver_tag_lem tags "-slim"

abbrev reference : Reference
reference = record {
  registry = "ghcr.io";
  repository = "renovate/renovate";
  tag = "44.11.3-slim";
  digest = "";
}

-- The second request for a manifest fails; the world is the number of requests.
abbrev registry : Registry ℕ
registry = record {
  head_manifest = λ r w. (
    if w == 0 then answered "sha256:a" else failed (record { is_classified = true; message = [] }),
    suc w,
  );
  local_digest = none;
  list_tags = λ r w. (answered tags, w);
  now = λ w. (7, w);
  unparseable = λ s. [];
}

abbrev poller : Poller ℕ
poller = record {
  enabled = true;
  configured_ref = "ghcr.io/renovate/renovate:44.11.3-slim";
  parsed = reference;
  state = record {
    enabled = true;
    ready = false;
    configured_ref = "ghcr.io/renovate/renovate:44.11.3-slim";
    registry = "ghcr.io";
    repository = "renovate/renovate";
    tag = "44.11.3-slim";
    digest = "";
    local_digest = "";
    latest_tag = "44.11.5-slim";
    latest_digest = "sha256:b";
    update_available = true;
    last_checked = 0;
    last_error = [];
  };
  world = 0;
}

-- The new tag stands with the digest of the old one.
stale_run :
    ((tick registry poller).1.state.latest_tag ≡ "44.11.10-slim")
    × ((tick registry poller).1.state.latest_digest ≡ "sha256:b")
unfolding tick latest_semver_tag latest_loop consider parse_semver_prefix
stale_run = (refl, refl)

poller-IsDerived : IsDerived poller.state
poller-IsDerived = (λ h. inl (λ e. ground (arith, eq_iff "44.11.5-slim" "")), λ h. refl)

abbrev network_failure : Failure
network_failure = record { is_classified = true; message = [] }

tick-IsObserved_example :
    IsObserved false (tick registry poller)
    × LatestKept poller.state poller.state
        (record_partial_success registry poller.state network_failure poller).1.state
tick-IsObserved_example =
    tick-IsObserved registry poller refl poller-IsDerived poller.state network_failure
