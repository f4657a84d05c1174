-- ===== src/ImageUpdate/Ref.antt =====
-- Parse of internal/imageupdate/ref.go, and validForHTTP of registry.go. A text is its bytes here.
pub mod RoundTrip
pub mod Complete
use renovate_docker_operator.Prelude.{
  ℕ, Bool, true, false, not, ◌&&◌, ◌||◌, Option, none, some, List, [], ◌∷◌, ◌++◌, ◌==◌,
  if◌then◌else◌,
}

pub record Reference : Type 0 where
  pub registry : List ℕ
  pub repository : List ℕ
  pub tag : List ℕ
  pub digest : List ℕ

pub data ParseError : Type 0 where
  empty_ref empty_digest empty_repository empty_tag : ParseError

pub data Parsed : Type 0 where
  parsed : Reference → Parsed
  rejected : ParseError → Parsed

-- "index.docker.io"
abbrev pub default_registry : List ℕ
default_registry =
    b'i' ∷ b'n' ∷ b'd' ∷ b'e' ∷ b'x' ∷ b'.' ∷ b'd' ∷ b'o' ∷ b'c' ∷ b'k' ∷ b'e' ∷ b'r' ∷ b'.' ∷ b'i'
    ∷ b'o' ∷ []

abbrev pub localhost : List ℕ
localhost = b'l' ∷ b'o' ∷ b'c' ∷ b'a' ∷ b'l' ∷ b'h' ∷ b'o' ∷ b's' ∷ b't' ∷ []

-- "library/"
abbrev pub library : List ℕ
library = b'l' ∷ b'i' ∷ b'b' ∷ b'r' ∷ b'a' ∷ b'r' ∷ b'y' ∷ b'/' ∷ []

abbrev pub latest : List ℕ
latest = b'l' ∷ b'a' ∷ b't' ∷ b'e' ∷ b's' ∷ b't' ∷ []

abbrev pub is_empty : List ℕ → Bool
is_empty [] = true
is_empty (b ∷ s) = false

unfoldable pub same : List ℕ → List ℕ → Bool
same [] [] = true
same [] (b ∷ t) = false
same (a ∷ s) [] = false
same (a ∷ s) (b ∷ t) = a == b && same s t

unfoldable pub has : ℕ → List ℕ → Bool
has c [] = false
has c (b ∷ s) = b == c || has c s

abbrev in_front : ℕ → Option (List ℕ × List ℕ) → Option (List ℕ × List ℕ)
in_front b none = none
in_front b (some (before, after)) = some (b ∷ before, after)

-- What is before and after the first c: strings.Index and the slices at it.
unfoldable pub cut_first : ℕ → List ℕ → Option (List ℕ × List ℕ)
cut_first c [] = none
cut_first c (b ∷ s) = let rest = cut_first c s in if b == c then some ([], s) else in_front b rest

-- The same for strings.LastIndex.
unfoldable pub cut_last : ℕ → List ℕ → Option (List ℕ × List ℕ)
unfolding has
cut_last c [] = none
cut_last c (b ∷ s) =
    let rest = cut_last c s in if b == c && not (has c s) then some ([], s) else in_front b rest

-- The first segment is a registry host.
abbrev pub is_host : List ℕ → Bool
is_host first = has b'.' first || (has b':' first || same first localhost)

-- The registry, `none` where none is written, and the rest.
split_registry : List ℕ → Option (List ℕ × List ℕ) → List ℕ × List ℕ
split_registry ref none = (default_registry, ref)
split_registry ref (some (first, rest)) =
    if is_host first then (first, rest) else (default_registry, ref)

abbrev or_latest : (tag digest : List ℕ) → List ℕ
or_latest tag digest = if is_empty tag && is_empty digest then latest else tag

reference : (registry repository tag digest : List ℕ) → Parsed
unfolding has same
reference registry repository tag digest =
    if is_empty repository
    then rejected empty_repository
    else parsed (record {
      registry = registry;
      repository =
          if same registry default_registry && not (has b'/' repository)
          then library ++ repository
          else repository;
      tag = or_latest tag digest;
      digest = digest;
    })

split_tag : (registry remainder digest : List ℕ) → Option (List ℕ × List ℕ) → Parsed
unfolding reference has
split_tag registry remainder digest none = reference registry remainder [] digest
split_tag registry remainder digest (some (repository, tag)) =
    if has b'/' tag
    then reference registry remainder [] digest
    else if is_empty tag
    then rejected empty_tag
    else reference registry repository tag digest

of_parts : List ℕ × List ℕ → (digest : List ℕ) → Parsed
unfolding split_tag cut_last
of_parts (registry, remainder) digest =
    if is_empty remainder
    then rejected empty_repository
    else split_tag registry remainder digest (cut_last b':' remainder)

-- A host without a text in front of its slash is no host.
undigested : (ref digest : List ℕ) → Parsed
unfolding of_parts split_registry cut_first
undigested ref digest = of_parts (split_registry ref (cut_first b'/' ref)) digest

split_digest : List ℕ → Option (List ℕ × List ℕ) → Parsed
unfolding undigested
split_digest ref none = undigested ref []
split_digest ref (some (before, digest)) =
    if is_empty digest then rejected empty_digest else undigested before digest

unfoldable pub parse : List ℕ → Parsed
unfolding split_digest cut_last
parse ref = if is_empty ref then rejected empty_ref else split_digest ref (cut_last b'@' ref)

unfoldable pub valid_for_http : Reference → Bool
valid_for_http r =
    not (is_empty r.registry)
    && (not (is_empty r.repository) && not (is_empty r.tag && is_empty r.digest))
