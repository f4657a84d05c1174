-- ===== src/ImageUpdate/Ref/Complete.antt =====
-- What Parse of internal/imageupdate/ref.go promises of its result.
use renovate_docker_operator.Prelude.{
  ℕ, ◌≡◌, refl, subst, Bool, true, false, not, ◌&&◌, Option, none, some, List, [], ◌∷◌, ◌++◌, arith,
  if◌then◌else◌,
}
use renovate_docker_operator.ImageUpdate.Ref.{
  Reference, Parsed, parsed, rejected, default_registry, library, is_empty, same, has, cut_first,
  cut_last, is_host, split_registry, or_latest, reference, split_tag, of_parts, undigested,
  split_digest, parse, valid_for_http,
}

-- A reference that is there can be asked for.
abbrev IsComplete : Parsed → Type 0
IsComplete (parsed r) = valid_for_http r ≡ true
IsComplete (rejected e) = Unit

if-IsComplete :
    (b : Bool) (x y : Parsed)
    → IsComplete x
    → (b ≡ false → IsComplete y)
    → IsComplete (if b then x else y)
if-IsComplete true x y p q = p
if-IsComplete false x y p q = q refl

or_latest-empty :
    (tag digest : List ℕ) → not (is_empty (or_latest tag digest) && is_empty digest) ≡ true
or_latest-empty [] [] = refl
or_latest-empty [] (b ∷ digest) = refl
or_latest-empty (b ∷ tag) digest = refl

reference-IsComplete :
    (registry repository tag digest : List ℕ)
    → is_empty registry ≡ false
    → IsComplete (reference registry repository tag digest)
unfolding reference valid_for_http
reference-IsComplete registry [] tag digest h = tt
reference-IsComplete registry (b ∷ repository) tag digest h =
    rw (h, or_latest-empty tag digest)
      (go (same registry default_registry && not (has b'/' (b ∷ repository))))
  where
    go :
        (bare : Bool)
        → true
            && (not (is_empty (if bare then library ++ b ∷ repository else b ∷ repository)) && true)
          ≡ true
    go true = refl
    go false = refl

split_tag-IsComplete :
    (registry remainder digest : List ℕ) (o : Option (List ℕ × List ℕ))
    → is_empty registry ≡ false
    → IsComplete (split_tag registry remainder digest o)
unfolding split_tag
split_tag-IsComplete registry remainder digest none h =
    reference-IsComplete registry remainder [] digest h
split_tag-IsComplete registry remainder digest (some (repository, tag)) h =
    if-IsComplete (has b'/' tag) _ _ (reference-IsComplete registry remainder [] digest h) (λ e.
      if-IsComplete (is_empty tag) _ _ tt
        (λ e2. reference-IsComplete registry repository tag digest h))

host-is_empty : (first : List ℕ) → is_host first ≡ true → is_empty first ≡ false
unfolding has same
host-is_empty [] h = ground arith
host-is_empty (b ∷ first) h = refl

split_registry-is_empty :
    (ref : List ℕ) (o : Option (List ℕ × List ℕ)) → is_empty (split_registry ref o).0 ≡ false
unfolding split_registry
split_registry-is_empty ref none = refl
split_registry-is_empty ref (some (first, rest)) = go (is_host first) (host-is_empty first)
  where
    go :
        (host : Bool)
        → (host ≡ true → is_empty first ≡ false)
        → (let parts : List ℕ × List ℕ = if host then (first, rest) else (default_registry, ref) in
            is_empty parts.0 ≡ false)
    go true h = h refl
    go false h = refl

undigested-IsComplete : (ref digest : List ℕ) → IsComplete (undigested ref digest)
unfolding undigested of_parts
undigested-IsComplete ref digest =
    let parts = split_registry ref (cut_first b'/' ref) in
    if-IsComplete (is_empty parts.1) _ _ tt (λ e.
      split_tag-IsComplete parts.0 parts.1 digest (cut_last b':' parts.1)
        (split_registry-is_empty ref (cut_first b'/' ref)))

split_digest-IsComplete :
    (ref : List ℕ) (o : Option (List ℕ × List ℕ)) → IsComplete (split_digest ref o)
unfolding split_digest
split_digest-IsComplete ref none = undigested-IsComplete ref []
split_digest-IsComplete ref (some (before, digest)) =
    if-IsComplete (is_empty digest) _ _ tt (λ e. undigested-IsComplete before digest)

-- Whatever text Parse accepts, the reference has a registry, a repository, and a tag or a digest: it
-- passes validForHTTP.
pub parse-valid_for_http :
    (text : List ℕ) (r : Reference) → parse text ≡ parsed r → valid_for_http r ≡ true
unfolding parse
parse-valid_for_http text r e =
    subst IsComplete e (
      if-IsComplete (is_empty text) _ _ tt (λ e. split_digest-IsComplete text (cut_last b'@' text)))
