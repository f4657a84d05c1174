-- ===== src/ImageUpdate/Tests/References.antt =====
-- Small image references, and the theorems about them at concrete inputs.
use renovate_docker_operator.Prelude.{◌≡◌, refl, [], ◌∷◌, ◌++◌}
use renovate_docker_operator.ImageUpdate.Ref.{
  Reference, parsed, default_registry, library, latest, has, same, cut_first, cut_last, parse,
}
use renovate_docker_operator.ImageUpdate.Ref.RoundTrip.{print, IsReference, parse-print}

-- "r:5/a/b:1@x"
abbrev full : Reference
full = record {
  registry = b'r' ∷ b':' ∷ b'5' ∷ [];
  repository = b'a' ∷ b'/' ∷ b'b' ∷ [];
  tag = b'1' ∷ [];
  digest = b'x' ∷ [];
}

full-IsReference : IsReference full
unfolding has same
full-IsReference = record {
  host = refl;
  one_segment = refl;
  named = refl;
  no_colon = refl;
  namespaced = refl;
  tag_no_slash = refl;
  tag_no_colon = refl;
  digest_no_at = refl;
  undigested_no_at = refl;
  pinned = refl;
}

parse-print_example : parse (print full) ≡ parsed full
parse-print_example = parse-print full full-IsReference

-- A bare name of the default registry.
abbrev bare : Reference
bare = record {
  registry = default_registry;
  repository = library ++ b'a' ∷ [];
  tag = latest;
  digest = [];
}

bare_run : parse (b'a' ∷ []) ≡ parsed bare
unfolding parse has same cut_first cut_last
bare_run = refl
