-- ===== src/StateStore/Db/Rules.antt =====
-- How a property of a method of the state store follows from its statements.
use renovate_docker_operator.Prelude.{
  ◌≡◌, refl, sym, subst, Bool, true, false, List, [], ◌∷◌, Option, none, some,
}
use renovate_docker_operator.StateStore.Db.{
  Db, Result, ok, err, StoreError, or_raise, Session, Action, Done, raise, return, checked, follow,
  committed, ◌>>=◌, with_fault, execute, query, update, end_transaction, transaction,
}

-- What holds of a result: on success of its value and the tables, and where there is an error the
-- tables are those of before.
abbrev pub Outcome : {A : Type 0} → Db → (A → Db → Type 0) → Result A → Db → Type 0
Outcome before P (ok a) after = P a after
Outcome before P (err e) after = after ≡ before

-- From any session, a method that succeeds has P, and one that fails has changed no table.
abbrev pub Does : {A : Type 0} → (Db → A → Db → Type 0) → Action A → Type 0
Does P m = (s : Session) → Outcome s.db (P s.db) (m s).0 (m s).1.db

module _ {A : Type 0} (P : Db → A → Db → Type 0) where
  with_fault-Does :
      (f : Db → Result A × Db)
      → ((d : Db) → Outcome d (P d) (f d).0 (f d).1)
      → (faults : List Bool) (d : Db)
      → Outcome d (P d) (with_fault faults f d).0 (with_fault faults f d).1.db
  unfolding with_fault
  with_fault-Does f h [] d = h d
  with_fault-Does f h (true ∷ later) d = refl
  with_fault-Does f h (false ∷ later) d = h d

  pub execute-Does :
      (f : Db → Result A × Db) → ((d : Db) → Outcome d (P d) (f d).0 (f d).1) → Does P (execute f)
  unfolding execute
  execute-Does f h s = with_fault-Does f h s.faults s.db

  pub query-Does : (f : Db → A) → ((d : Db) → P d (f d) d) → Does P (query f)
  unfolding query
  query-Does f h = execute-Does (λ d. (ok (f d), d)) h

  pub return-Does : (a : A) → ((d : Db) → P d a d) → Does P (return a)
  return-Does a h s = h s.db

  pub raise-Does : (e : StoreError) → Does P (raise e)
  raise-Does e s = refl

  pub or_raise-Does :
      (o : Option A) (e : StoreError)
      → ((a : A) → o ≡ some a → (d : Db) → P d a d)
      → Does P (or_raise o e)
  or_raise-Does none e h s = refl
  or_raise-Does (some a) e h s = h a refl s.db

pub update-Does :
    (P : Db → Done → Db → Type 0) (f : Db → Db) → ((d : Db) → P d tt (f d)) → Does P (update f)
unfolding update
update-Does P f h = execute-Does P (λ d. (ok tt, f d)) h

module _ {A B : Type 0} where
  -- A method that only reads before it goes on.
  pub reads-Does :
      (Q : Db → A → Type 0) (P : Db → B → Db → Type 0) (m : Action A) (k : A → Action B)
      → Does (λ d a d1. Q d a × (d1 ≡ d)) m
      → ((a : A) (s : Session) → Q s.db a → Outcome s.db (P s.db) (k a s).0 (k a s).1.db)
      → Does P (m >>= k)
  reads-Does Q P m k hm hk s = go (m s) (hm s)
    where
      go :
          (r : Result A × Session)
          → Outcome s.db (λ a d1. Q s.db a × (d1 ≡ s.db)) r.0 r.1.db
          → Outcome s.db (P s.db) (follow k r).0 (follow k r).1.db
      go (ok a, s1) (q, same) =
          subst (λ d. Outcome d (P d) (k a s1).0 (k a s1).1.db) same
            (hk a s1 (subst (λ d. Q d a) (sym same) q))
      go (err e, s1) h = h

pub checked-Outcome :
    (P : Done → Db → Type 0) (b : Bool) (e : StoreError) (after before : Db)
    → (b ≡ true → P tt after)
    → Outcome before P (checked b e after before).0 (checked b e after before).1
checked-Outcome P true e after before h = h refl
checked-Outcome P false e after before h = refl

-- Only what a body does where it succeeds counts inside a transaction.
abbrev pub Succeeds : {A : Type 0} → (A → Db → Type 0) → Result A × Session → Type 0
Succeeds P (ok a, s) = P a s.db
Succeeds P (err e, s) = Unit

update_same : Does (λ d u d1. d1 ≡ d) (update (λ d. d))
update_same = update-Does (λ d u d1. d1 ≡ d) (λ d. d) (λ d. refl)

module _ {A : Type 0} (P : Db → A → Db → Type 0) where
  committed-Does :
      (before : Db) (a : A) (d : Db) (r : Result Done × Session)
      → Outcome d (λ u d1. d1 ≡ d) r.0 r.1.db
      → P before a d
      → Outcome before (P before) (committed before a r).0 (committed before a r).1.db
  unfolding committed
  committed-Does before a d (ok u, s) same p = subst (P before a) (sym same) p
  committed-Does before a d (err e, s) same p = refl

  end_transaction-Does :
      (before : Db) (r : Result A × Session)
      → Succeeds (P before) r
      → Outcome before (P before) (end_transaction before r).0 (end_transaction before r).1.db
  unfolding end_transaction
  end_transaction-Does before (err e, s) h = refl
  end_transaction-Does before (ok a, s) h =
      committed-Does before a s.db (update (λ d. d) s) (update_same s) h

  pub transaction-Outcome :
      (body : Action A) (s : Session)
      → ((s1 : Session) → s1.db ≡ s.db → Succeeds (P s.db) (body s1))
      → Outcome s.db (P s.db) (transaction body s).0 (transaction body s).1.db
  unfolding transaction
  transaction-Outcome body s h = go (update (λ d. d) s) (update_same s)
    where
      go :
          (r : Result Done × Session)
          → Outcome s.db (λ u d1. d1 ≡ s.db) r.0 r.1.db
          → Outcome s.db
              (P s.db)
              (follow (λ u s1. end_transaction s.db (body s1)) r).0
              (follow (λ u s1. end_transaction s.db (body s1)) r).1.db
      go (ok u, s1) same = end_transaction-Does s.db (body s1) (h s1 same)
      go (err e, s1) same = same

pub Outcome-Succeeds :
    {A : Type 0} (before : Db) (P : A → Db → Type 0) (r : Result A × Session)
    → Outcome before P r.0 r.1.db
    → Succeeds P r
Outcome-Succeeds before P (ok a, s) h = h
Outcome-Succeeds before P (err e, s) h = tt

module _ {A B : Type 0} where
  pub follow-Succeeds :
      (Q : A → Db → Type 0) (P : B → Db → Type 0) (k : A → Action B) (r : Result A × Session)
      → Succeeds Q r
      → ((a : A) (s : Session) → Q a s.db → Succeeds P (k a s))
      → Succeeds P (follow k r)
  follow-Succeeds Q P k (ok a, s) q h = h a s q
  follow-Succeeds Q P k (err e, s) q h = tt

pub Succeeds-map :
    {A : Type 0} (P Q : A → Db → Type 0) (r : Result A × Session)
    → ((a : A) (d : Db) → P a d → Q a d)
    → Succeeds P r
    → Succeeds Q r
Succeeds-map P Q (ok a, s) f h = f a s.db h
Succeeds-map P Q (err e, s) f h = tt

-- A method that ends by giving a value.
module _ {A B : Type 0} where
  pub yields-Outcome :
      (before : Db) (Q : A → Db → Type 0) (P : B → Db → Type 0) (b : B) (r : Result A × Session)
      → ((a : A) (d1 : Db) → Q a d1 → P b d1)
      → Outcome before Q r.0 r.1.db
      → Outcome before P (follow (λ a. return b) r).0 (follow (λ a. return b) r).1.db
  yields-Outcome before Q P b (ok a, s) f q = f a s.db q
  yields-Outcome before Q P b (err e, s) f same = same
