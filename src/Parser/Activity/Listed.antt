-- ===== src/Parser/Activity/Listed.antt =====
-- The sort of buildPRActivity of internal/parser/logparser.go.
use renovate_docker_operator.Prelude.{
  suc, String, ◌≡◌, refl, ◌∙◌, ap, sym, Bool, true, false, List, [], ◌∷◌, Dict, arith,
  if◌then◌else◌, length, count_if,
}
use renovate_docker_operator.Api.{PrDetail}
use renovate_docker_operator.Parser.Activity.{less, before, insert_pr, sort_prs, details}

-- No detail comes before the one in front of it.
abbrev pub IsSorted : List PrDetail → Type 0
IsSorted [] = Unit
IsSorted (d ∷ []) = Unit
IsSorted (d ∷ e ∷ prs) = (before e d ≡ false) × IsSorted (e ∷ prs)

less-asymmetric : (s t : String) → less s t ≡ true → less t s ≡ false
less-asymmetric s String.[] h = ground arith
less-asymmetric String.[] (String.◌∷◌ d t) h = refl
less-asymmetric (String.◌∷◌ c s) (String.◌∷◌ d t) h = ground (arith, less-asymmetric s t)

before-asymmetric : (a b : PrDetail) → before a b ≡ true → before b a ≡ false
before-asymmetric a b h = ground (arith, less-asymmetric a.branch b.branch)

insert_pr-IsSorted :
    (d : PrDetail) (prs : List PrDetail) → IsSorted prs → IsSorted (insert_pr d prs)
unfolding insert_pr
insert_pr-IsSorted d [] h = tt
insert_pr-IsSorted d (e ∷ []) h = choose (before e d) refl
  where
    choose : (b : Bool) → before e d ≡ b → IsSorted (if b then e ∷ d ∷ [] else d ∷ e ∷ [])
    choose true q = (before-asymmetric e d q, tt)
    choose false q = (q, tt)
insert_pr-IsSorted d (e ∷ f ∷ prs) h =
    choose (before e d) (before f d) refl (insert_pr-IsSorted d (f ∷ prs) h.1)
  where
    choose :
        (b c : Bool)
        → before e d ≡ b
        → IsSorted (if c then f ∷ insert_pr d prs else d ∷ f ∷ prs)
        → IsSorted
            (if b then e ∷ (if c then f ∷ insert_pr d prs else d ∷ f ∷ prs) else d ∷ e ∷ f ∷ prs)
    choose true true q k = (h.0, k)
    choose true false q k = (before-asymmetric e d q, k)
    choose false c q k = (q, h)

pub sort_prs-IsSorted : (prs : List PrDetail) → IsSorted (sort_prs prs)
unfolding sort_prs
sort_prs-IsSorted [] = tt
sort_prs-IsSorted (d ∷ prs) = insert_pr-IsSorted d (sort_prs prs) (sort_prs-IsSorted prs)

module _ (q : PrDetail → Bool) where
  count_if-insert_pr :
      (d : PrDetail) (prs : List PrDetail) → count_if q (insert_pr d prs) ≡ count_if q (d ∷ prs)
  unfolding insert_pr
  count_if-insert_pr d [] = refl
  count_if-insert_pr d (e ∷ prs) = ground (arith, count_if-insert_pr d prs)

  pub count_if-sort_prs : (prs : List PrDetail) → count_if q (sort_prs prs) ≡ count_if q prs
  unfolding sort_prs
  count_if-sort_prs [] = refl
  count_if-sort_prs (d ∷ prs) =
      count_if-insert_pr d (sort_prs prs)
      ∙ ap (λ n. if q d then suc n else n) (count_if-sort_prs prs)

count_all : (prs : List PrDetail) → count_if (λ d. true) prs ≡ length prs
count_all [] = refl
count_all (d ∷ prs) = ap suc (count_all prs)

pub length-sort_prs : (prs : List PrDetail) → length (sort_prs prs) ≡ length prs
length-sort_prs prs =
    sym (count_all (sort_prs prs)) ∙ count_if-sort_prs (λ d. true) prs ∙ count_all prs

pub length-details : (m : Dict PrDetail) → length (details m) ≡ length m
length-details [] = refl
length-details (e ∷ m) = ap suc (length-details m)
