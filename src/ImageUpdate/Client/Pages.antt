-- ===== src/ImageUpdate/Client/Pages.antt =====
-- The pages that ListTags of internal/imageupdate/registry.go reads.
use renovate_docker_operator.Prelude.{
  ℕ, zero, suc, ◌+◌, ◌-◌, ◌≤◌, ◌≡◌, ◌⊎◌, inl, inr, refl, sym, ap, ◌∙◌, true, false, List, [], ◌++◌,
  arith,
}
use mathlib.Core.List.{append_assoc, append-nil}
use renovate_docker_operator.ImageUpdate.Ref.{Reference, is_empty, valid_for_http}
use renovate_docker_operator.ImageUpdate.Auth.{Strings}
use renovate_docker_operator.ImageUpdate.Client.{
  Reply, reply, Http, Authenticator, tags_url, get_tags_page, tags_loop, list_tags,
}

module _ (strings : Strings) {W : Type 0} (http : Http W) (auth : Authenticator W)
    (token : List ℕ) where
  -- Following the links from a URL, that many pages are answered; their tags, the link of the last.
  pub data Chain : ℕ → List ℕ → W → List (List ℕ) → List ℕ → W → Type 0 where
    no_page : (url : List ℕ) (w : W) → Chain 0 url w [] url w
    page :
        (n : ℕ) (url : List ℕ) (w : W) (tags : List (List ℕ)) (next : List ℕ) (w1 : W)
        (more : List (List ℕ)) (last : List ℕ) (w2 : W)
        → is_empty url ≡ false
        → get_tags_page strings http auth url token w ≡ (reply (tags, next), w1)
        → Chain n next w1 more last w2
        → Chain (suc n) url w (tags ++ more) last w2

  tags_loop-page :
      (turns : ℕ) (url : List ℕ) (w : W) (tags : List (List ℕ)) (next : List ℕ) (w1 : W)
      (all : List (List ℕ))
      → is_empty url ≡ false
      → get_tags_page strings http auth url token w ≡ (reply (tags, next), w1)
      → tags_loop strings http auth (suc turns) url token all w
        ≡ tags_loop strings http auth turns next token (all ++ tags) w1
  unfolding tags_loop
  tags_loop-page turns url w tags next w1 all filled got =
      let answer : (get_tags_page strings http auth url token w).0 ≡ reply (tags, next) =
        ap (λ (r : Reply (List (List ℕ) × List ℕ) × W). r.0) got in
      let world : (get_tags_page strings http auth url token w).1 ≡ w1 =
        ap (λ (r : Reply (List (List ℕ) × List ℕ) × W). r.1) got in
      rw (filled, answer, world) refl

  tags_loop-Chain :
      (turns k n : ℕ) (url : List ℕ) (w : W) (tags : List (List ℕ)) (last : List ℕ) (after : W)
      → turns ≡ n + k
      → Chain n url w tags last after
      → (all : List (List ℕ))
      → tags_loop strings http auth turns url token all w
        ≡ tags_loop strings http auth k last token (all ++ tags) after
  tags_loop-Chain turns k _ _ _ _ _ _ e (no_page url w) all =
      let same_turns : turns ≡ k = omega arith in
      rw same_turns (ap (λ l. tags_loop strings http auth k url token l w) (sym (append-nil all)))
  tags_loop-Chain turns k _ _ _ _ _ _ e (page n url w tags next w1 more last w2 filled got rest)
        all =
      let same_turns : turns ≡ suc (n + k) = omega arith in
      rw same_turns (
        tags_loop-page (n + k) url w tags next w1 all filled got
        ∙ tags_loop-Chain (n + k) k n next w1 more last w2 refl rest (all ++ tags)
        ∙ ap (λ l. tags_loop strings http auth k last token l w2) (append_assoc all tags more))

  tags_loop-end :
      (k : ℕ) (all : List (List ℕ)) (w : W)
      → tags_loop strings http auth k [] token all w ≡ (reply all, w)
  unfolding tags_loop
  tags_loop-end zero all w = refl
  tags_loop-end (suc k) all w = refl

  tags_loop-none :
      (url : List ℕ) (all : List (List ℕ)) (w : W)
      → tags_loop strings http auth 0 url token all w ≡ (reply all, w)
  unfolding tags_loop
  tags_loop-none url all w = refl

module _ (strings : Strings) {W : Type 0} (http : Http W) (auth : Authenticator W) where
  -- Where the registry answers pages without a challenge, ListTags gives the tags of all pages up to
  -- the one without a next link, in their order, or of the first 100 pages where there are more, and
  -- then it is no error that tags are left out.
  pub list_tags-Chain :
      (ref : Reference) (n : ℕ) (w : W) (tags : List (List ℕ)) (last : List ℕ) (after : W)
      → valid_for_http ref ≡ true
      → Chain strings http auth [] n (tags_url ref) w tags last after
      → ((last ≡ []) × (n ≤ 100)) ⊎ (n ≡ 100)
      → list_tags strings http auth ref w ≡ (reply tags, after)
  unfolding list_tags
  list_tags-Chain ref n w tags last after valid chain (inl (ended, few)) =
      let turns : 100 ≡ n + (100 - n) = omega arith in
      rw valid (
        tags_loop-Chain strings http auth [] 100 (100 - n) n (tags_url ref) w tags last after turns
          chain []
        ∙ ap (λ l. tags_loop strings http auth (100 - n) l [] tags after) ended
        ∙ tags_loop-end strings http auth [] (100 - n) tags after)
  list_tags-Chain ref n w tags last after valid chain (inr all_turns) =
      let turns : 100 ≡ n + 0 = omega arith in
      rw valid (
        tags_loop-Chain strings http auth [] 100 0 n (tags_url ref) w tags last after turns chain []
        ∙ tags_loop-none strings http auth [] last tags after)
