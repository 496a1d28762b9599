-- ===== src/Jobs/Claim.antt =====
-- jobstore.go, `ClaimJobs`: the guarded UPDATE, and who wins a row.
use mathlib.Core.Path.{subst}
use go_web_search.Prelude.{
  ◌≡◌, refl, ◌⊎◌, inl, inr, Bool, true, false, List, [], ◌∷◌, map, String, arith, ap, sym, All, In,
  Distinct, ◌==◌,
}
use go_web_search.Clock.{Stamp}
use go_web_search.Rows.{JobRow}
use go_web_search.Sql.{update, count}
use go_web_search.Store.{Result, ok, err, World, exec, driver, continue, pure, ◌>>=◌}
use go_web_search.Jobs.{Job, is_claimable, lock, claim_one, claim_all, keep_won}

-- No pending row has the id.
abbrev pub IsTaken : String → List JobRow → Type 0
IsTaken id rows = All (λ r. is_claimable id r ≡ false) rows

IsTaken-lock_self :
    (id : String) (at : Stamp) (rows : List JobRow)
    → IsTaken id (update (is_claimable id) (lock at) rows)
unfolding update lock
IsTaken-lock_self id at [] = tt
IsTaken-lock_self id at (r ∷ rows) = (ground arith, IsTaken-lock_self id at rows)

IsTaken-lock :
    (a id : String) (at : Stamp) (rows : List JobRow)
    → IsTaken a rows
    → IsTaken a (update (is_claimable id) (lock at) rows)
unfolding update lock
IsTaken-lock a id at [] h = tt
IsTaken-lock a id at (r ∷ rows) h = (ground arith, IsTaken-lock a id at rows h.1)

count-IsTaken :
    (id : String) (rows : List JobRow) → IsTaken id rows → count (is_claimable id) rows ≡ 0
unfolding count
count-IsTaken id [] h = refl
count-IsTaken id (r ∷ rows) h = ground (arith, count-IsTaken id rows h.1)

module _ (at : Stamp) (id : String) (w : World) where
  not_true : (claim_one at id w).0 ≡ err driver → (claim_one at id w).0 ≡ ok true → ⊥
  not_true e e' = cc

  pub claim_one_effect :
      ((claim_one at id w).0 ≡ err driver) × ((claim_one at id w).1.tables ≡ w.tables)
      ⊎ ((claim_one at id w).0 ≡ ok (count (is_claimable id) w.tables.jobs == 1))
        × ((claim_one at id w).1.tables.jobs ≡ update (is_claimable id) (lock at) w.tables.jobs)
  unfolding claim_one exec
  claim_one_effect = ground arith

  claim_one_fresh : IsTaken id w.tables.jobs → (claim_one at id w).0 ≡ ok true → ⊥
  unfolding claim_one exec
  claim_one_fresh h e = ground (arith, count-IsTaken id w.tables.jobs h)

  IsTaken-claim_one_self :
      (claim_one at id w).0 ≡ ok true → IsTaken id (claim_one at id w).1.tables.jobs
  IsTaken-claim_one_self e = elim claim_one_effect [
    | inl e' ↦ absurd (not_true e'.0 e)
    | inr won ↦ rw (won.1) (IsTaken-lock_self id at w.tables.jobs)
  ]

  IsTaken-claim_one :
      (a : String) → IsTaken a w.tables.jobs → IsTaken a (claim_one at id w).1.tables.jobs
  IsTaken-claim_one a h = elim claim_one_effect [
    | inl kept ↦ rw (kept.1) h
    | inr won ↦ rw (won.1) (IsTaken-lock a id at w.tables.jobs h)
  ]

abbrev pub ids : List Job → List String
ids = map (λ j. j.id)

-- What a call of `claim_all` returned, with nothing where it failed.
abbrev pub granted : Result (List Job) → List Job
granted (ok js) = js
granted (err e) = []

-- The rest of the loop, after the claim of `j` returned `won`.
abbrev claim_rest : Stamp → Job → List Job → Bool → World → Result (List Job) × World
claim_rest at j js won = do rest ← claim_all at js; pure (keep_won won j rest)

In-claim_rest :
    (at : Stamp) (a : String) (j : Job) (js : List Job) (won : Bool) (w : World)
    → In a (ids (granted (claim_rest at j js won w).0))
    → ((won ≡ true) × (j.id ≡ a)) ⊎ In a (ids (granted (claim_all at js w).0))
In-claim_rest at a j js won w = go won (claim_all at js w)
  where
    go :
        (won : Bool) (r : Result (List Job) × World)
        → In a (ids (granted (continue r (λ rest. pure (keep_won won j rest))).0))
        → ((won ≡ true) × (j.id ≡ a)) ⊎ In a (ids (granted r.0))
    go true (ok rest, w') (inl e) = inl (refl, e)
    go true (ok rest, w') (inr i) = inr i
    go false (ok rest, w') i = inr i
    go won (err e, w') i = absurd i

module _ (at : Stamp) (j : Job) (js : List Job) where
  granted_none_step :
      (a : String) (r : Result Bool × World)
      → (r.0 ≡ ok true → j.id ≡ a → ⊥)
      → ¬ In a (ids (granted (claim_all at js r.1).0))
      → ¬ In a (ids (granted (continue r (claim_rest at j js)).0))
  granted_none_step a (ok won, w') fresh ih i = elim (In-claim_rest at a j js won w' i) [
    | inl (e, same) ↦ fresh (ap ok e) same
    | inr k ↦ ih k
  ]
  granted_none_step a (err e, w') fresh ih i = i

  exclusive_step :
      (r : Result Bool × World)
      → (r.0 ≡ ok true → ¬ In j.id (ids (granted (claim_all at js r.1).0)))
      → Distinct (ids (granted (claim_all at js r.1).0))
      → Distinct (ids (granted (continue r (claim_rest at j js)).0))
  exclusive_step (err e, w') fresh ih = tt
  exclusive_step (ok won, w') fresh ih = go won (claim_all at js w') fresh ih
    where
      go :
          (won : Bool) (r : Result (List Job) × World)
          → (ok won ≡ ok true → ¬ In j.id (ids (granted r.0)))
          → Distinct (ids (granted r.0))
          → Distinct (ids (granted (continue r (λ rest. pure (keep_won won j rest))).0))
      go true (ok rest, w'') f d = (f refl, d)
      go false (ok rest, w'') f d = d
      go won (err e, w'') f d = tt

granted_none :
    (at : Stamp) (a : String) (js : List Job) (w : World)
    → IsTaken a w.tables.jobs
    → ¬ In a (ids (granted (claim_all at js w).0))
unfolding claim_all
granted_none at a [] w h = λ i. i
granted_none at a (j ∷ js) w h =
    granted_none_step at j js a (claim_one at j.id w)
      (λ won same.
        claim_one_fresh at j.id w (subst (λ x. IsTaken x w.tables.jobs) (sym same) h) won)
      (granted_none at a js (claim_one at j.id w).1 (IsTaken-claim_one at j.id w a h))

-- The ids that one call returns are distinct.
pub claim_all_exclusive :
    (at : Stamp) (js : List Job) (w : World) → Distinct (ids (granted (claim_all at js w).0))
unfolding claim_all
claim_all_exclusive at [] w = tt
claim_all_exclusive at (j ∷ js) w =
    exclusive_step at j js (claim_one at j.id w)
      (λ won.
        granted_none at j.id js (claim_one at j.id w).1 (IsTaken-claim_one_self at j.id w won))
      (claim_all_exclusive at js (claim_one at j.id w).1)

-- A schedule of guarded claims from any number of workers, each with its own reading of the clock:
-- the ids that they win. A worker whose statement the driver refuses wins nothing.
abbrev pub won_id : String → Result Bool → List String → List String
won_id id (ok true) rest = id ∷ rest
won_id id _ rest = rest

pub wins : List (Stamp × String) → World → List String
wins [] w = []
wins ((at, id) ∷ s) w = won_id id (claim_one at id w).0 (wins s (claim_one at id w).1)

wins_step :
    (a id : String) (r : Result Bool) (rest : List String)
    → (r ≡ ok true → id ≡ a → ⊥)
    → ¬ In a rest
    → ¬ In a (won_id id r rest)
wins_step a id (ok true) rest fresh ih (inl e) = fresh refl e
wins_step a id (ok true) rest fresh ih (inr i) = ih i
wins_step a id (ok false) rest fresh ih i = ih i
wins_step a id (err e) rest fresh ih i = ih i

wins_none :
    (a : String) (s : List (Stamp × String)) (w : World)
    → IsTaken a w.tables.jobs
    → ¬ In a (wins s w)
unfolding wins
wins_none a [] w h = λ i. i
wins_none a ((at, id) ∷ s) w h =
    wins_step a id (claim_one at id w).0 (wins s (claim_one at id w).1)
      (λ won same. claim_one_fresh at id w (subst (λ x. IsTaken x w.tables.jobs) (sym same) h) won)
      (wins_none a s (claim_one at id w).1 (IsTaken-claim_one at id w a h))

Distinct-step :
    (id : String) (r : Result Bool) (rest : List String)
    → (r ≡ ok true → ¬ In id rest)
    → Distinct rest
    → Distinct (won_id id r rest)
Distinct-step id (ok true) rest fresh d = (fresh refl, d)
Distinct-step id (ok false) rest fresh d = d
Distinct-step id (err e) rest fresh d = d

-- Two workers never win one job: in any interleaving of guarded claims, with the same candidate
-- tried as often as one likes and any statement refused by the driver, each id is won once at most.
pub wins_exclusive : (s : List (Stamp × String)) (w : World) → Distinct (wins s w)
unfolding wins
wins_exclusive [] w = tt
wins_exclusive ((at, id) ∷ s) w =
    Distinct-step id (claim_one at id w).0 (wins s (claim_one at id w).1)
      (λ won. wins_none id s (claim_one at id w).1 (IsTaken-claim_one_self at id w won))
      (wins_exclusive s (claim_one at id w).1)
