-- ===== src/Resilience/Window.antt =====
-- The sliding window of resilience.go: trimming a chronological list of instants from the front
-- keeps exactly the instants that are not before the cutoff.
use renovate_docker_operator.Prelude.{
  ℕ, ◌≤◌, ◌≡◌, refl, ap, ◌∙◌, Bool, true, List, [], ◌∷◌, ◌++◌, arith, leb, if◌then◌else◌, select,
  All, All-append, All-map,
}
use renovate_docker_operator.Resilience.{drop_before}

abbrev pub IsChronological : List ℕ → Type 0
IsChronological [] = Unit
IsChronological (t ∷ ts) = All (λ u. t ≤ u) ts × IsChronological ts

pub IsChronological-append :
    (ts : List ℕ) (now : ℕ)
    → IsChronological ts
    → All (λ t. t ≤ now) ts
    → IsChronological (ts ++ now ∷ [])
IsChronological-append [] now h b = (tt, tt)
IsChronological-append (t ∷ ts) now h b =
    (All-append (λ u. t ≤ u) ts (now ∷ []) h.0 (b.0, tt), IsChronological-append ts now h.1 b.1)

select-All : (p : ℕ → Bool) (ts : List ℕ) → All (λ t. p t ≡ true) ts → select p ts ≡ ts
select-All p [] h = refl
select-All p (t ∷ ts) h = rw h.0 (ap (λ r. t ∷ r) (select-All p ts h.1))

-- On a chronological list the loop keeps what a filter would keep.
pub drop_before-select :
    (cutoff : ℕ) (ts : List ℕ) → IsChronological ts → drop_before cutoff ts ≡ select (leb cutoff) ts
unfolding drop_before
drop_before-select cutoff [] h = refl
drop_before-select cutoff (t ∷ ts) h = ground (
  arith,
  drop_before-select cutoff ts,
  λ (le : cutoff ≤ t).
      select-All (leb cutoff) ts
        (All-map (λ u. t ≤ u) (λ u. leb cutoff u ≡ true) ts (λ u (k : t ≤ u). ground arith) h.0),
)

All-select : (P : ℕ → Type 0) (p : ℕ → Bool) (ts : List ℕ) → All P ts → All P (select p ts)
All-select P p [] h = tt
All-select P p (t ∷ ts) h =
    elim (p t) as (λ b. All P (if b then t ∷ select p ts else select p ts)) [
      | true ↦ (h.0, All-select P p ts h.1)
      | _ ↦ All-select P p ts h.1
    ]

IsChronological-select :
    (p : ℕ → Bool) (ts : List ℕ) → IsChronological ts → IsChronological (select p ts)
IsChronological-select p [] h = tt
IsChronological-select p (t ∷ ts) h =
    elim (p t) as (λ b. IsChronological (if b then t ∷ select p ts else select p ts)) [
      | true ↦ (All-select (λ u. t ≤ u) p ts h.0, IsChronological-select p ts h.1)
      | _ ↦ IsChronological-select p ts h.1
    ]

select-select :
    (c d : ℕ) (ts : List ℕ) → c ≤ d → select (leb d) (select (leb c) ts) ≡ select (leb d) ts
select-select c d [] h = refl
select-select c d (t ∷ ts) h = ground (arith, select-select c d ts h)

-- Trimming again at a later cutoff is the same as trimming the whole history there.
pub drop_before_again :
    (c d : ℕ) (ts : List ℕ)
    → IsChronological ts
    → c ≤ d
    → drop_before d (select (leb c) ts) ≡ select (leb d) ts
drop_before_again c d ts h le =
    drop_before-select d (select (leb c) ts) (IsChronological-select (leb c) ts h)
    ∙ select-select c d ts le
