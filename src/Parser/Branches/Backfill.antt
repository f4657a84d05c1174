-- ===== src/Parser/Branches/Backfill.antt =====
-- handleBranchesInfoExtended of internal/parser/logparser.go fills gaps and overrides nothing.
use renovate_docker_operator.Prelude.{
  ℕ, subst, String, ◌≡◌, refl, ◌∙◌, sym, ap, Bool, true, false, not, ◌&&◌, Option, none, some, List,
  [], ◌∷◌, Dict, lookup, put, lookup-put, arith, str_eq, eq_iff, if◌then◌else◌,
}
use renovate_docker_operator.Api.{PrDetail}
use renovate_docker_operator.Parser.Branches.{
  BranchInfoItem, Decoder, backfill, with_detail, detail_or_new, is_active, from_info,
  backfill_branch, backfill_branches, handle_branches_info_extended,
}

-- The second has the number and the action of the first, and its title if it has one.
abbrev pub Extends : PrDetail → PrDetail → Type 0
Extends d e =
    (e.action ≡ d.action) × (e.number ≡ d.number) × (str_eq d.title "" ≡ false → e.title ≡ d.title)

-- There is a detail that extends this one.
abbrev pub IsThere : PrDetail → Option PrDetail → Type 0
IsThere d none = true ≡ false
IsThere d (some e) = Extends d e

not_there : (d e : PrDetail) → IsThere d none → Extends d e
not_there d e h = ground arith

Extends-backfill : (d e : PrDetail) (title : String) → Extends d e → Extends d (backfill title e)
Extends-backfill d e title (a, n, t) = choose (str_eq e.title "") (not (str_eq title "")) refl
  where
    choose :
        (b c : Bool)
        → str_eq e.title "" ≡ b
        → Extends d (if b && c then record e { title = title } else e)
    choose true true q = (a, n, λ h. ground (arith, t h, q))
    choose true false q = (a, n, t)
    choose false c q = (a, n, t)

module _ (decoder : Decoder) (branch : String) (d : PrDetail) where
  -- A write to one branch, where the detail of the one in question is extended.
  put-IsThere :
      (name : String) (e : PrDetail) (m : Dict PrDetail)
      → (str_eq name branch ≡ true → Extends d e)
      → IsThere d (lookup branch m)
      → IsThere d (lookup branch (put name e m))
  put-IsThere name e m here h = rw (lookup-put name branch e m) (choose (str_eq name branch) here)
    where
      choose :
          (b : Bool) → (b ≡ true → Extends d e) → IsThere d (if b then some e else lookup branch m)
      choose true here1 = here1 refl
      choose false here1 = h

  same_key :
      (name : String) (m : Dict PrDetail)
      → str_eq name branch ≡ true
      → lookup name m ≡ lookup branch m
  same_key name m h = ap (λ k. lookup k m) (ground (arith, eq_iff name branch))

  backfill_branch-IsThere :
      (b : BranchInfoItem) (o : Option PrDetail) (m : Dict PrDetail)
      → lookup b.branch_name m ≡ o
      → IsThere d (lookup branch m)
      → IsThere d (lookup branch (backfill_branch decoder b o m))
  unfolding backfill_branch
  backfill_branch-IsThere b (some existing) m e h =
      put-IsThere b.branch_name (backfill b.pr_title existing) m
        (λ same.
          Extends-backfill d existing b.pr_title
            (subst (IsThere d) (sym (same_key b.branch_name m same) ∙ e) h))
        h
  backfill_branch-IsThere b none m e h = choose (is_active decoder b.result)
    where
      choose :
          (active : Bool)
          → IsThere d (
              lookup branch
                (if active then with_detail b.branch_name (from_info decoder b) m else m))
      choose true =
          put-IsThere b.branch_name
            (from_info decoder b (detail_or_new b.branch_name (lookup b.branch_name m))) m
            (λ same.
              not_there d
                (from_info decoder b (detail_or_new b.branch_name (lookup b.branch_name m)))
                (subst (IsThere d) (sym (same_key b.branch_name m same) ∙ e) h))
            h
      choose false = h

  backfill_branches-IsThere :
      (bs : List BranchInfoItem) (m : Dict PrDetail)
      → IsThere d (lookup branch m)
      → IsThere d (lookup branch (backfill_branches decoder bs m))
  unfolding backfill_branches
  backfill_branches-IsThere [] m h = h
  backfill_branches-IsThere (b ∷ bs) m h = backfill_branches-IsThere bs _ (
      choose (str_eq b.branch_name "")
        (backfill_branch-IsThere b (lookup b.branch_name m) m refl h))
    where
      choose :
          (blank : Bool)
          → IsThere d (lookup branch (backfill_branch decoder b (lookup b.branch_name m) m))
          → IsThere d (
              lookup branch
                (if blank then m else backfill_branch decoder b (lookup b.branch_name m) m))
      choose true k = h
      choose false k = k

  -- Whatever a summary of the branches says, a branch that the log has shown before keeps its action,
  -- its number and its title, unless the title is empty.
  pub handle_branches_info_extended-IsThere :
      (line : List ℕ) (m : Dict PrDetail)
      → lookup branch m ≡ some d
      → IsThere d (lookup branch (handle_branches_info_extended decoder line m))
  unfolding handle_branches_info_extended
  handle_branches_info_extended-IsThere line m e = go (decoder.branches_info line)
    where
      there : IsThere d (lookup branch m)
      there = subst (IsThere d) (sym e) (refl, refl, λ h. refl)

      go :
          (o : Option (List BranchInfoItem))
          → IsThere d
              (lookup branch (elim o [ none ↦ m | some bs ↦ backfill_branches decoder bs m ]))
      go none = there
      go (some bs) = backfill_branches-IsThere bs m there
