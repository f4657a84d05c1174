-- ===== src/Parser/Activity/Described.antt =====
-- What buildPRActivity of internal/parser/logparser.go counts, lists and leaves out, branch by branch.
use renovate_docker_operator.Prelude.{
  ℕ, suc, ◌<◌, String, ◌≡◌, ◌≢◌, ◌⊎◌, refl, ◌∙◌, ap, Bool, true, false, Option, none, some, List,
  [], ◌∷◌, Dict, arith, ltb, pos, ltb_ℤ, if◌then◌else◌, length, count_if, take,
}
use renovate_docker_operator.Api.{
  PrAction, automerged, created, updated, needs_approval, unchanged, PrDetail, PrActivity,
}
use renovate_docker_operator.Parser.Branches.{is_positive}
use renovate_docker_operator.Parser.Activity.{
  max_pr_details, is_action, has_action, default_action, action_order, less, sort_prs, details,
  build_pr_activity,
}
use renovate_docker_operator.Parser.Activity.Listed.{
  IsSorted, sort_prs-IsSorted, count_if-sort_prs, length-sort_prs, length-details,
}

-- A branch as it is shown: with its own action, with the action `updated` where it has none but a
-- number, or without an action.
pub data IsShown (d : PrDetail) : PrDetail → Type 0 where
  own : (a : PrAction) → d.action ≡ some a → IsShown d d
  defaulted :
      d.action ≡ none
      → ltb_ℤ (pos 0) d.number ≡ true
      → IsShown d (record d { action = some updated })
  bare : d.action ≡ none → ltb_ℤ (pos 0) d.number ≡ false → IsShown d d

-- The branches of the map as they are shown.
pub data AreShown : Dict PrDetail → List PrDetail → Type 0 where
  no_branch : AreShown [] []
  branch :
      (name : String) (d shown : PrDetail) (m : Dict PrDetail) (ds : List PrDetail)
      → IsShown d shown
      → AreShown m ds
      → AreShown ((name, d) ∷ m) (shown ∷ ds)

-- How many branches have the action.
pub data Tally (a : PrAction) : List PrDetail → ℕ → Type 0 where
  none_left : Tally a [] 0
  hit :
      (d : PrDetail) (ds : List PrDetail) (n : ℕ)
      → d.action ≡ some a
      → Tally a ds n
      → Tally a (d ∷ ds) (suc n)
  miss :
      (d : PrDetail) (ds : List PrDetail) (n : ℕ)
      → d.action ≢ some a
      → Tally a ds n
      → Tally a (d ∷ ds) n

-- The place of an action in the list: automerged and no action come first, unchanged last.
abbrev pub rank : Option PrAction → ℕ
rank (some unchanged) = 4
rank (some needs_approval) = 3
rank (some updated) = 2
rank (some created) = 1
rank (some automerged) = 0
rank none = 0

-- By the places of their actions, and within one by their names.
abbrev pub IsOrdered : List PrDetail → Type 0
IsOrdered [] = Unit
IsOrdered (d ∷ []) = Unit
IsOrdered (d ∷ e ∷ prs) =
    ((rank d.action < rank e.action)
      ⊎ ((rank d.action ≡ rank e.action) × (less e.branch d.branch ≡ false)))
    × IsOrdered (e ∷ prs)

-- The counts are of all shown branches, and the list is the front of those in their order.
pub data IsListed (m : Dict PrDetail) (a : PrActivity) : Type 0 where
  listed :
      (shown ordered : List PrDetail)
      → AreShown m shown
      → Tally automerged shown a.automerged
      → Tally created shown a.created
      → Tally updated shown a.updated
      → Tally needs_approval shown a.needs_approval
      → Tally unchanged shown a.unchanged
      → ((q : PrDetail → Bool) → count_if q ordered ≡ count_if q shown)
      → IsOrdered ordered
      → a.prs ≡ take max_pr_details ordered
      → a.truncated ≡ ltb max_pr_details (length m)
      → IsListed m a

shown_action :
    (o : Option PrAction) (d : PrDetail)
    → d.action ≡ o
    → IsShown d (elim o [
      | none ↦ if is_positive d.number then record d { action = some updated } else d
      | some action ↦ d
    ])
shown_action none d e = choose (is_positive d.number) refl
  where
    choose :
        (b : Bool)
        → is_positive d.number ≡ b
        → IsShown d (if b then record d { action = some updated } else d)
    choose true p = defaulted e p
    choose false p = bare e p
shown_action (some a) d e = own a e

details-AreShown : (m : Dict PrDetail) → AreShown m (details m)
details-AreShown [] = no_branch
details-AreShown ((name, d) ∷ m) =
    branch name d (default_action d) m (details m) (shown_action d.action d refl)
      (details-AreShown m)

is_action-yes : (a : PrAction) (o : Option PrAction) → is_action a o ≡ true → o ≡ some a
is_action-yes automerged o h = ground arith
is_action-yes created o h = ground arith
is_action-yes updated o h = ground arith
is_action-yes needs_approval o h = ground arith
is_action-yes unchanged o h = ground arith

is_action-no : (a : PrAction) (o : Option PrAction) → is_action a o ≡ false → o ≢ some a
is_action-no automerged o h e = ground arith
is_action-no created o h e = ground arith
is_action-no updated o h e = ground arith
is_action-no needs_approval o h e = ground arith
is_action-no unchanged o h e = ground arith

count_if-Tally : (a : PrAction) (ds : List PrDetail) → Tally a ds (count_if (has_action a) ds)
count_if-Tally a [] = none_left
count_if-Tally a (d ∷ ds) = choose (is_action a d.action) refl (count_if-Tally a ds)
  where
    choose :
        (b : Bool)
        → is_action a d.action ≡ b
        → {n : ℕ} → Tally a ds n
        → Tally a (d ∷ ds) (if b then suc n else n)
    choose true e rest = hit d ds _ (is_action-yes a d.action e) rest
    choose false e rest = miss d ds _ (is_action-no a d.action e) rest

action_order-rank : (o : Option PrAction) → action_order o ≡ rank o
action_order-rank none = refl
action_order-rank (some automerged) = refl
action_order-rank (some created) = refl
action_order-rank (some updated) = refl
action_order-rank (some needs_approval) = refl
action_order-rank (some unchanged) = refl

IsSorted-IsOrdered : (prs : List PrDetail) → IsSorted prs → IsOrdered prs
IsSorted-IsOrdered [] h = tt
IsSorted-IsOrdered (d ∷ []) h = tt
IsSorted-IsOrdered (d ∷ e ∷ prs) h = (
  ground (arith, action_order-rank d.action, action_order-rank e.action, h.0),
  IsSorted-IsOrdered (e ∷ prs) h.1,
)

-- Every branch is shown with its own action, or as updated where it has none but a number. Each of
-- the five counts is the number of all branches shown with that action, truncated or not. The list
-- has at most the first 100 branches, ordered by action (automerged and none, created, updated, needs
-- approval, unchanged) and then by name, and is marked as truncated exactly where there are more.
pub build_pr_activity-IsListed : (m : Dict PrDetail) → IsListed m (build_pr_activity m)
unfolding build_pr_activity
build_pr_activity-IsListed m =
    listed (details m) (sort_prs (details m)) (details-AreShown m) (count_if-Tally automerged _)
      (count_if-Tally created _) (count_if-Tally updated _) (count_if-Tally needs_approval _)
      (count_if-Tally unchanged _) (λ q. count_if-sort_prs q (details m))
      (IsSorted-IsOrdered (sort_prs (details m)) (sort_prs-IsSorted (details m))) refl
      (ap (ltb max_pr_details) (length-sort_prs (details m) ∙ length-details m))
