-- ===== src/ImageUpdate/Ref/RoundTrip.antt =====
-- Parse of internal/imageupdate/ref.go on the references that are written in full.
use renovate_docker_operator.Prelude.{
  ℕ, ◌≡◌, refl, sym, ap, ◌∙◌, true, false, not, ◌&&◌, none, some, List, [], ◌∷◌, ◌++◌, arith,
}
use renovate_docker_operator.ImageUpdate.Ref.{
  Reference, parsed, default_registry, is_empty, same, has, cut_first, cut_last, is_host,
  split_registry, reference, split_tag, of_parts, undigested, split_digest, parse,
}

abbrev pub with_tag : (repository tag : List ℕ) → List ℕ
with_tag repository [] = repository
with_tag repository (b ∷ tag) = repository ++ b':' ∷ b ∷ tag

abbrev pub with_digest : (name digest : List ℕ) → List ℕ
with_digest name [] = name
with_digest name (b ∷ digest) = name ++ b'@' ∷ b ∷ digest

abbrev name_of : Reference → List ℕ
name_of r = r.registry ++ b'/' ∷ with_tag r.repository r.tag

-- registry/repository, with the tag and the digest that there are.
abbrev pub print : Reference → List ℕ
print r = with_digest (name_of r) r.digest

-- The registry counts as a host, the marks stand nowhere but between the parts, and the reference has
-- a tag or a digest. A repository of the default registry has a namespace.
pub record IsReference (r : Reference) : Type 0 where
  pub host : is_host r.registry ≡ true
  pub one_segment : has b'/' r.registry ≡ false
  pub named : is_empty r.repository ≡ false
  pub no_colon : has b':' r.repository ≡ false
  pub namespaced : same r.registry default_registry && not (has b'/' r.repository) ≡ false
  pub tag_no_slash : has b'/' r.tag ≡ false
  pub tag_no_colon : has b':' r.tag ≡ false
  pub digest_no_at : has b'@' r.digest ≡ false
  pub undigested_no_at : is_empty r.digest && has b'@' (name_of r) ≡ false
  pub pinned : is_empty r.tag && is_empty r.digest ≡ false

is_empty-append : (s t : List ℕ) (b : ℕ) → is_empty (s ++ b ∷ t) ≡ false
is_empty-append [] t b = refl
is_empty-append (a ∷ s) t b = refl

cut_last-none : (c : ℕ) (s : List ℕ) → has c s ≡ false → cut_last c s ≡ none
unfolding cut_last has
cut_last-none c [] h = refl
cut_last-none c (b ∷ s) h = ground (arith, cut_last-none c s)

has-last : (c : ℕ) (s t : List ℕ) → has c (s ++ c ∷ t) ≡ true
unfolding has
has-last c [] t = ground arith
has-last c (b ∷ s) t = ground (arith, has-last c s t)

cut_last-append : (c : ℕ) (s t : List ℕ) → has c t ≡ false → cut_last c (s ++ c ∷ t) ≡ some (s, t)
unfolding cut_last has
cut_last-append c [] t h = ground arith
cut_last-append c (b ∷ s) t h = rw (cut_last-append c s t h, has-last c s t) (ground arith)

cut_first-append : (c : ℕ) (s t : List ℕ) → has c s ≡ false → cut_first c (s ++ c ∷ t) ≡ some (s, t)
unfolding cut_first has
cut_first-append c [] t h = ground arith
cut_first-append c (b ∷ s) t h =
    let later : has c s ≡ false = ground arith in rw (cut_first-append c s t later) (ground arith)

module _ (r : Reference) (ok : IsReference r) where
  reference-parsed : reference r.registry r.repository r.tag r.digest ≡ parsed r
  unfolding reference
  reference-parsed = rw (ok.named, ok.namespaced, ok.pinned) refl

  split_tag-parsed :
      split_tag r.registry
        (with_tag r.repository r.tag)
        r.digest
        (cut_last b':' (with_tag r.repository r.tag))
      ≡ parsed r
  unfolding split_tag
  split_tag-parsed = go r.tag refl
    where
      go :
          (tag : List ℕ)
          → r.tag ≡ tag
          → split_tag r.registry
              (with_tag r.repository tag)
              r.digest
              (cut_last b':' (with_tag r.repository tag))
            ≡ parsed r
      go [] e =
          rw (cut_last-none b':' r.repository ok.no_colon)
            (ap (λ t. reference r.registry r.repository t r.digest) (sym e) ∙ reference-parsed)
      go (b ∷ tag) e =
          rw
            (
              cut_last-append b':' r.repository (b ∷ tag) (sym (ap (has b':') e) ∙ ok.tag_no_colon),
              sym (ap (has b'/') e) ∙ ok.tag_no_slash,
            )
            (ap (λ t. reference r.registry r.repository t r.digest) (sym e) ∙ reference-parsed)

  is_empty-with_tag : (tag : List ℕ) → is_empty (with_tag r.repository tag) ≡ false
  is_empty-with_tag [] = ok.named
  is_empty-with_tag (b ∷ tag) = is_empty-append r.repository (b ∷ tag) b':'

  undigested-parsed : undigested (name_of r) r.digest ≡ parsed r
  unfolding undigested split_registry of_parts
  undigested-parsed =
      rw
        (
          cut_first-append b'/' r.registry (with_tag r.repository r.tag) ok.one_segment,
          ok.host,
          is_empty-with_tag r.tag,
        )
        split_tag-parsed

  -- A reference that is written in full is parsed to its parts.
  pub parse-print : parse (print r) ≡ parsed r
  unfolding parse split_digest
  parse-print = go r.digest refl
    where
      go : (digest : List ℕ) → r.digest ≡ digest → parse (with_digest (name_of r) digest) ≡ parsed r
      go [] e =
          rw
            (
              is_empty-append r.registry (with_tag r.repository r.tag) b'/',
              cut_last-none b'@' (name_of r)
                  (ap (λ d. is_empty d && has b'@' (name_of r)) (sym e) ∙ ok.undigested_no_at),
            )
            (ap (undigested (name_of r)) (sym e) ∙ undigested-parsed)
      go (b ∷ digest) e =
          rw
            (
              is_empty-append (name_of r) (b ∷ digest) b'@',
              cut_last-append b'@' (name_of r) (b ∷ digest)
                  (sym (ap (has b'@') e) ∙ ok.digest_no_at),
            )
            (ap (undigested (name_of r)) (sym e) ∙ undigested-parsed)
