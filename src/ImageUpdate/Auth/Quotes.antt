-- ===== src/ImageUpdate/Auth/Quotes.antt =====
-- What splitOutsideQuotes of internal/imageupdate/auth.go makes of a challenge.
use renovate_docker_operator.Prelude.{
  ℕ, ◌≡◌, refl, ap, ◌∙◌, sym, subst, Bool, true, false, not, ◌&&◌, List, [], ◌∷◌, ◌++◌, ◌==◌, arith,
  if◌then◌else◌,
}
use renovate_docker_operator.ImageUpdate.Auth.{onto_first, split_from, split_outside_quotes}

abbrev is_none : List (List ℕ) → Bool
is_none [] = true
is_none (field ∷ fields) = false

unfoldable pub join : ℕ → List (List ℕ) → List ℕ
join sep [] = []
join sep (field ∷ []) = field
join sep (field ∷ next ∷ fields) = field ++ sep ∷ join sep (next ∷ fields)

-- No separator stands outside quotes in a text that begins inside quotes or not.
unfoldable pub is_whole : (sep : ℕ) → (in_quote : Bool) → List ℕ → Bool
is_whole sep in_quote [] = true
is_whole sep in_quote (b ∷ s) =
    let closed = is_whole sep (not in_quote) s in
    let rest = is_whole sep in_quote s in
    if b == b'"' then closed else not (b == sep && not in_quote) && rest

-- The first of the fields begins inside quotes or not, the others outside.
abbrev pub all_whole : (sep : ℕ) → (in_quote : Bool) → List (List ℕ) → Bool
all_whole sep in_quote [] = true
all_whole sep in_quote (field ∷ fields) = is_whole sep in_quote field && all_whole sep false fields

-- Whether the text that begins inside quotes or not ends inside quotes.
unfoldable pub ends_quoted : (in_quote : Bool) → List ℕ → Bool
ends_quoted in_quote [] = in_quote
ends_quoted in_quote (b ∷ s) =
    let closed = ends_quoted (not in_quote) s in
    let rest = ends_quoted in_quote s in if b == b'"' then closed else rest

-- Every field but the last ends outside quotes.
abbrev pub all_closed : (in_quote : Bool) → List (List ℕ) → Bool
all_closed in_quote [] = true
all_closed in_quote (field ∷ []) = true
all_closed in_quote (field ∷ next ∷ fields) =
    not (ends_quoted in_quote field) && all_closed false (next ∷ fields)

join-onto_first :
    (sep b : ℕ) (fields : List (List ℕ)) → join sep (onto_first b fields) ≡ b ∷ join sep fields
unfolding join
join-onto_first sep b [] = refl
join-onto_first sep b (field ∷ []) = refl
join-onto_first sep b (field ∷ next ∷ fields) = refl

module _ (sep : ℕ) where
  split_from-nonempty : (q : Bool) (s : List ℕ) → is_none (split_from sep q s) ≡ false
  unfolding split_from
  split_from-nonempty q [] = refl
  split_from-nonempty q (b ∷ s) =
      go (b == b'"') (b == sep && not q) (split_from sep (not q) s) (split_from sep q s)
    where
      onto : (c : ℕ) (fields : List (List ℕ)) → is_none (onto_first c fields) ≡ false
      onto c [] = refl
      onto c (field ∷ fields) = refl

      go :
          (quote cut : Bool) (closed rest : List (List ℕ))
          → is_none
              (if quote then onto_first b closed else if cut then [] ∷ rest else onto_first b rest)
            ≡ false
      go true cut closed rest = onto b closed
      go false true closed rest = refl
      go false false closed rest = onto b rest

  join-cut :
      (fields : List (List ℕ))
      → is_none fields ≡ false
      → join sep ([] ∷ fields) ≡ sep ∷ join sep fields
  unfolding join
  join-cut [] h = ground arith
  join-cut (field ∷ fields) h = refl

  join-split_from : (q : Bool) (s : List ℕ) → join sep (split_from sep q s) ≡ s
  unfolding split_from join
  join-split_from q [] = refl
  join-split_from q (b ∷ s) =
      go (b == b'"') (b == sep && not q) (λ e. ground arith) (join-split_from (not q) s)
        (join-split_from q s)
    where
      go :
          (quote cut : Bool)
          → (cut ≡ true → b ≡ sep)
          → join sep (split_from sep (not q) s) ≡ s
          → join sep (split_from sep q s) ≡ s
          → join sep (
              if quote
              then onto_first b (split_from sep (not q) s)
              else if cut
              then [] ∷ split_from sep q s
              else onto_first b (split_from sep q s))
            ≡ b ∷ s
      go true cut h closed rest = join-onto_first sep b _ ∙ ap (λ t. b ∷ t) closed
      go false true h closed rest =
          join-cut _ (split_from-nonempty q s)
          ∙ ap (λ t. sep ∷ t) rest
          ∙ ap (λ c. c ∷ s) (sym (h refl))
      go false false h closed rest = join-onto_first sep b _ ∙ ap (λ t. b ∷ t) rest

  all_whole-onto_first :
      (q p : Bool) (b : ℕ) (fields : List (List ℕ))
      → ((field : List ℕ) → is_whole sep q (b ∷ field) ≡ is_whole sep p field)
      → all_whole sep q (onto_first b fields) ≡ all_whole sep p fields
  unfolding is_whole
  all_whole-onto_first q p b [] h = rw (h []) refl
  all_whole-onto_first q p b (field ∷ fields) h = rw (h field) refl

  split_from-whole : (q : Bool) (s : List ℕ) → all_whole sep q (split_from sep q s) ≡ true
  unfolding split_from is_whole
  split_from-whole q [] = refl
  split_from-whole q (b ∷ s) =
      go (b == b'"') (b == sep && not q) refl refl (split_from-whole (not q) s)
        (split_from-whole q s)
    where
      outside : (p : Bool) → b == sep && not p ≡ true → p ≡ false
      outside p h = ground arith

      go :
          (quote cut : Bool)
          → b == b'"' ≡ quote
          → b == sep && not q ≡ cut
          → all_whole sep (not q) (split_from sep (not q) s) ≡ true
          → all_whole sep q (split_from sep q s) ≡ true
          → all_whole sep q (
              if quote
              then onto_first b (split_from sep (not q) s)
              else if cut
              then [] ∷ split_from sep q s
              else onto_first b (split_from sep q s))
            ≡ true
      go true cut e c closed rest = all_whole-onto_first q (not q) b _ (λ field. rw e refl) ∙ closed
      go false true e c closed rest =
          ap (λ p. all_whole sep p (split_from sep q s)) (sym (outside q c)) ∙ rest
      go false false e c closed rest = all_whole-onto_first q q b _ (λ field. rw (e, c) refl) ∙ rest

  all_closed-onto_first :
      (q p : Bool) (b : ℕ) (fields : List (List ℕ))
      → ((field : List ℕ) → ends_quoted q (b ∷ field) ≡ ends_quoted p field)
      → all_closed q (onto_first b fields) ≡ all_closed p fields
  unfolding ends_quoted
  all_closed-onto_first q p b [] h = refl
  all_closed-onto_first q p b (field ∷ []) h = refl
  all_closed-onto_first q p b (field ∷ next ∷ fields) h = rw (h field) refl

  all_closed-cut :
      (fields : List (List ℕ))
      → all_closed false fields ≡ true
      → all_closed false ([] ∷ fields) ≡ true
  unfolding ends_quoted
  all_closed-cut [] h = refl
  all_closed-cut (field ∷ fields) h = h

  split_from-closed : (q : Bool) (s : List ℕ) → all_closed q (split_from sep q s) ≡ true
  unfolding split_from ends_quoted
  split_from-closed q [] = refl
  split_from-closed q (b ∷ s) =
      go (b == b'"') (b == sep && not q) refl refl (split_from-closed (not q) s)
        (split_from-closed q s)
    where
      outside : (p : Bool) → b == sep && not p ≡ true → p ≡ false
      outside p h = ground arith

      go :
          (quote cut : Bool)
          → b == b'"' ≡ quote
          → b == sep && not q ≡ cut
          → all_closed (not q) (split_from sep (not q) s) ≡ true
          → all_closed q (split_from sep q s) ≡ true
          → all_closed q (
              if quote
              then onto_first b (split_from sep (not q) s)
              else if cut
              then [] ∷ split_from sep q s
              else onto_first b (split_from sep q s))
            ≡ true
      go true cut e c closed rest =
          all_closed-onto_first q (not q) b _ (λ field. rw e refl) ∙ closed
      go false true e c closed rest =
          subst
            (λ p.
              all_closed p (split_from sep p s) ≡ true
              → all_closed p ([] ∷ split_from sep p s) ≡ true)
            (sym (outside q c)) (all_closed-cut (split_from sep false s)) rest
      go false false e c closed rest = all_closed-onto_first q q b _ (λ field. rw e refl) ∙ rest

-- The fields, joined by the separator, are the text again; no field has a separator outside quotes;
-- and every field but the last ends outside quotes, so that no separator inside quotes is a cut.
pub split_outside_quotes-join :
    (s : List ℕ) (sep : ℕ)
    → (join sep (split_outside_quotes s sep) ≡ s)
      × (all_whole sep false (split_outside_quotes s sep) ≡ true)
      × (all_closed false (split_outside_quotes s sep) ≡ true)
unfolding split_outside_quotes
split_outside_quotes-join s sep =
    (join-split_from sep false s, split_from-whole sep false s, split_from-closed sep false s)
