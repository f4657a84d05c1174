-- ===== src/ImageUpdate/Links.antt =====
-- parseNextLink of internal/imageupdate/registry.go. A text is its bytes.
use renovate_docker_operator.Prelude.{
  ℕ, Bool, true, false, ◌&&◌, ◌||◌, Option, none, some, List, [], ◌∷◌, ◌++◌, ◌==◌, if◌then◌else◌,
}
use renovate_docker_operator.ImageUpdate.Ref.{is_empty, cut_first}
use renovate_docker_operator.ImageUpdate.Auth.{Strings}

unfoldable pub starts_with : List ℕ → List ℕ → Bool
starts_with [] s = true
starts_with (b ∷ prefix) [] = false
starts_with (b ∷ prefix) (c ∷ s) = b == c && starts_with prefix s

-- The text before the first t and the one after it.
cut_text : List ℕ → List ℕ → Option (List ℕ × List ℕ)
unfolding starts_with
cut_text t [] = none
cut_text t (b ∷ s) =
    let rest = cut_text t s in
    if starts_with t (b ∷ s)
    then some ([], dropped t (b ∷ s))
    else elim rest [ none ↦ none | some (before, after) ↦ some (b ∷ before, after) ]
  where
    dropped : List ℕ → List ℕ → List ℕ
    dropped [] s = s
    dropped (c ∷ t) [] = []
    dropped (c ∷ t) (b ∷ s) = dropped t s

contains_bytes : List ℕ → List ℕ → Bool
unfolding starts_with
contains_bytes t [] = is_empty t
contains_bytes t (b ∷ s) = starts_with t (b ∷ s) || contains_bytes t s

split_commas : List ℕ → List (List ℕ)
split_commas [] = [] ∷ []
split_commas (b ∷ s) =
    let rest = split_commas s in
    if b == b','
    then [] ∷ rest
    else elim rest [ [] ↦ (b ∷ []) ∷ [] | first ∷ others ↦ (b ∷ first) ∷ others ]

-- strings.TrimPrefix and strings.TrimSuffix of one byte.
trim_first : ℕ → List ℕ → List ℕ
trim_first c [] = []
trim_first c (b ∷ s) = if b == c then s else b ∷ s

trim_last : ℕ → List ℕ → List ℕ
trim_last c [] = []
trim_last c (b ∷ []) = if b == c then [] else b ∷ []
trim_last c (b ∷ d ∷ s) = b ∷ trim_last c (d ∷ s)

-- `rel="next"`
abbrev rel_next : List ℕ
rel_next = b'r' ∷ b'e' ∷ b'l' ∷ b'=' ∷ b'"' ∷ b'n' ∷ b'e' ∷ b'x' ∷ b't' ∷ b'"' ∷ []

-- "://"
abbrev scheme_end : List ℕ
scheme_end = b':' ∷ b'/' ∷ b'/' ∷ []

-- The scheme and host of the base, in front of a target that is a path.
host_of : List ℕ → Option (List ℕ × List ℕ) → List ℕ
unfolding cut_first
host_of after none = after
host_of after (some (host, path)) = host

on_base : List ℕ → Option (List ℕ × List ℕ) → List ℕ
unfolding host_of cut_first
on_base target none = target
on_base target (some (scheme, after)) =
    scheme ++ (scheme_end ++ (host_of after (cut_first b'/' after) ++ target))

resolve : (base target : List ℕ) → List ℕ
unfolding on_base cut_text starts_with
resolve base target =
    if starts_with (b'/' ∷ []) target then on_base target (cut_text scheme_end base) else target

module _ (strings : Strings) where
  -- The target of an entry that is the next link.
  next_of : Option (List ℕ × List ℕ) → Option (List ℕ)
  unfolding contains_bytes trim_first trim_last
  next_of none = none
  next_of (some (target, params)) =
      if contains_bytes rel_next (strings.to_lower (strings.trim_space params))
      then some (trim_first b'<' (trim_last b'>' (strings.trim_space target)))
      else none

  first_next : (base : List ℕ) → List (List ℕ) → List ℕ
  unfolding next_of cut_first resolve
  first_next base [] = []
  first_next base (entry ∷ entries) =
      let later = first_next base entries in
      elim (next_of (cut_first b';' (strings.trim_space entry))) [
        | none ↦ later
        | some target ↦ resolve base target
      ]

  unfoldable pub parse_next_link : (link base : List ℕ) → List ℕ
  unfolding first_next split_commas
  parse_next_link link base = if is_empty link then [] else first_next base (split_commas link)
