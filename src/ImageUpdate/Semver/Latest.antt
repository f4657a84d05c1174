-- ===== src/ImageUpdate/Semver/Latest.antt =====
-- What LatestSemverTag of internal/imageupdate/registry.go finds.
use mathlib.Core.List.{Memᴰ}
use text.Mathlib.TextEquality.{eq_iff}
use renovate_docker_operator.Prelude.{
  String, ◌≡◌, ◌≢◌, ◌⊎◌, inl, inr, refl, ◌&&◌, ap, Bool, true, false, Option, none, some, List, [],
  ◌∷◌, arith, Bool-cases, str_eq, if◌then◌else◌, All, Option-cases,
}
use renovate_docker_operator.ImageUpdate.Semver.{
  Version, parse_semver_prefix, newer, newer_than_best, better, consider, tag_of, latest_loop,
  latest_semver_tag,
}

abbrev pub Best : Type 0
Best = Option (String × Version)

-- The tag is no version, one of another family, or not newer than the best.
pub data Behind (family : String) (best : Best) (tag : String) : Type 0 where
  no_version : parse_semver_prefix tag ≡ none → Behind family best tag
  other_family :
      (v : Version) → parse_semver_prefix tag ≡ some v → v.suffix ≢ family → Behind family best tag
  not_newer :
      (v : Version)
      → parse_semver_prefix tag ≡ some v
      → newer_than_best v best ≡ false
      → Behind family best tag

-- A tag of the list that is a version of the family.
pub data Found (family : String) (tags : List String) : Best → Type 0 where
  found :
      (tag : String) (v : Version)
      → Memᴰ tag tags
      → parse_semver_prefix tag ≡ some v
      → v.suffix ≡ family
      → Found family tags (some (tag, v))

Found-cons :
    (family tag : String) (tags : List String) (best : Best)
    → Found family tags best
    → Found family (tag ∷ tags) best
Found-cons family tag tags best (found t v m p s) = found t v (Memᴰ.tail m) p s

newer_trans : (v w u : Version) → newer w u ≡ true → newer v u ≡ false → newer v w ≡ false
newer_trans v w u b a = ground arith

better_keeps :
    (family tag : String) (v w : Version) (best : Best)
    → newer_than_best v best ≡ false
    → newer_than_best v (better family tag w best) ≡ false
better_keeps family tag v w none e = cc
better_keeps family tag v w (some (t, u)) e = ground (arith, newer_trans v w u)

consider-none :
    (family tag : String) (best : Best)
    → parse_semver_prefix tag ≡ none
    → consider family tag best ≡ best
unfolding consider
consider-none family tag best e =
    ap (λ o. elim o [ none ↦ best | some v ↦ better family tag v best ]) e

consider-some :
    (family tag : String) (v : Version) (best : Best)
    → parse_semver_prefix tag ≡ some v
    → consider family tag best ≡ better family tag v best
unfolding consider
consider-some family tag v best e =
    ap (λ o. elim o [ none ↦ best | some w ↦ better family tag w best ]) e

consider_keeps :
    (family tag : String) (v : Version) (best : Best)
    → newer_than_best v best ≡ false
    → newer_than_best v (consider family tag best) ≡ false
consider_keeps family tag v best e = elim (Option-cases (parse_semver_prefix tag)) [
  | inl absent ↦ rw (consider-none family tag best absent) e
  | inr (w, is_w) ↦ rw (consider-some family tag w best is_w) (better_keeps family tag v w best e)
]

latest_loop_keeps :
    (family : String) (v : Version) (tags : List String) (best : Best)
    → newer_than_best v best ≡ false
    → newer_than_best v (latest_loop tags family best) ≡ false
unfolding latest_loop
latest_loop_keeps family v [] best e = e
latest_loop_keeps family v (tag ∷ tags) best e =
    latest_loop_keeps family v tags (consider family tag best) (consider_keeps family tag v best e)

Behind-latest_loop :
    (family tag : String) (tags : List String) (best : Best)
    → Behind family best tag
    → Behind family (latest_loop tags family best) tag
Behind-latest_loop family tag tags best (no_version e) = no_version e
Behind-latest_loop family tag tags best (other_family v e n) = other_family v e n
Behind-latest_loop family tag tags best (not_newer v e n) =
    not_newer v e (latest_loop_keeps family v tags best n)

newer_irrefl : (v : Version) → newer v v ≡ false
newer_irrefl v = ground arith

better-newest :
    (family tag : String) (v : Version) (best : Best)
    → v.suffix ≡ family
    → newer_than_best v (better family tag v best) ≡ false
better-newest family tag v none s = ground (arith, eq_iff v.suffix family, newer_irrefl v)
better-newest family tag v (some (t, u)) s = ground (arith, eq_iff v.suffix family, newer_irrefl v)

consider-Behind : (family tag : String) (best : Best) → Behind family (consider family tag best) tag
consider-Behind family tag best = elim (Option-cases (parse_semver_prefix tag)) [
  | inl absent ↦ no_version absent
  | inr (w, is_w) ↦ elim (Bool-cases (str_eq w.suffix family)) [
    | inl same ↦ not_newer w is_w (
        rw (consider-some family tag w best is_w)
          (better-newest family tag w best ((eq_iff w.suffix family).0 same)))
    | inr other ↦ other_family w is_w (λ e. ground (arith, eq_iff w.suffix family))
  ]
]

better-Found :
    (family tag : String) (tags : List String) (v : Version) (best : Best)
    → parse_semver_prefix tag ≡ some v
    → (better family tag v best ≡ best) ⊎ Found family (tag ∷ tags) (better family tag v best)
better-Found family tag tags v best e =
    choose (str_eq v.suffix family && newer_than_best v best)
      (λ h. ground (arith, eq_iff v.suffix family))
  where
    choose :
        (b : Bool)
        → (b ≡ true → v.suffix ≡ family)
        → ((if b then some (tag, v) else best) ≡ best)
          ⊎ Found family (tag ∷ tags) (if b then some (tag, v) else best)
    choose true s = inr (found tag v (Memᴰ.head refl) e (s refl))
    choose false s = inl refl

consider-Found :
    (family tag : String) (tags : List String) (best : Best)
    → (consider family tag best ≡ best) ⊎ Found family (tag ∷ tags) (consider family tag best)
consider-Found family tag tags best = elim (Option-cases (parse_semver_prefix tag)) [
  | inl absent ↦ inl (consider-none family tag best absent)
  | inr (w, is_w) ↦
      rw (consider-some family tag w best is_w) (better-Found family tag tags w best is_w)
]

latest_loop-Found :
    (family : String) (tags : List String) (best : Best)
    → (latest_loop tags family best ≡ best) ⊎ Found family tags (latest_loop tags family best)
unfolding latest_loop
latest_loop-Found family [] best = inl refl
latest_loop-Found family (tag ∷ tags) best =
    elim (latest_loop-Found family tags (consider family tag best)) [
      | inr later ↦ inr (Found-cons family tag tags _ later)
      | inl same ↦
          rw same (elim (consider-Found family tag tags best) [ inl e ↦ inl e | inr now ↦ inr now ])
    ]

latest_loop-Behind :
    (family : String) (tags : List String) (best : Best)
    → All (Behind family (latest_loop tags family best)) tags
unfolding latest_loop
latest_loop-Behind family [] best = tt
latest_loop-Behind family (tag ∷ tags) best = (
  Behind-latest_loop family tag tags (consider family tag best) (consider-Behind family tag best),
  latest_loop-Behind family tags (consider family tag best),
)

-- The result is a tag of the list that is a version of the family, and no tag of the list that is
-- one is newer; where there is no result, no tag is a version of the family.
pub latest_semver_tag_lem :
    (tags : List String) (family : String)
    → (best : Best) × (latest_semver_tag tags family ≡ tag_of best)
      × ((best ≡ none) ⊎ Found family tags best)
      × All (Behind family best) tags
unfolding latest_semver_tag
latest_semver_tag_lem tags family = (
  latest_loop tags family none,
  refl,
  latest_loop-Found family tags none,
  latest_loop-Behind family tags none,
)
