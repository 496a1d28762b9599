-- ===== src/Jobs/Granted.antt =====
-- ClaimJobs: what holds of each job that a call returns.
use go_web_search.Prelude.{
  ℕ, suc, ◌≤◌, ◌≡◌, refl, Bool, true, false, List, [], ◌∷◌, some, arith, All, Distinct, ap, ◌∙◌, ℤ,
  length,
}
use go_web_search.Clock.{Stamp, format}
use go_web_search.Rows.{JobRow, running}
use go_web_search.Store.{Result, ok, err, World, continue, pure, ◌>>=◌, now, query}
use go_web_search.Store.Laws.{query_ok, now_tables}
use go_web_search.Jobs.{Job, candidates, claim_one, claim_all, claim_jobs, claim_limit, keep_won}
use go_web_search.Jobs.Claim.{granted, claim_all_exclusive, ids}
use go_web_search.Jobs.Held.{
  WasRunnable, IsRunning, candidates-WasRunnable, length-candidates, IsRunning-claim_one_self,
  IsRunning-claim_all,
}

-- A returned job: it satisfies `P`, is marked running, and holds its row.
abbrev pub Holds : (Job → Type 0) → Stamp → List JobRow → Job → Type 0
Holds P at rows j = P j × (j.status ≡ some running) × IsRunning at rows j.id

module _ (P : Job → Type 0) (keep : (j : Job) → P j → P (record j { status = some running }))
    (at : Stamp) where
  kept-Holds :
      (j : Job) (won : Bool) (r : Result (List Job) × World)
      → P j
      → (won ≡ true → IsRunning at r.1.tables.jobs j.id)
      → All (Holds P at r.1.tables.jobs) (granted r.0)
      → let out = continue r (λ rest. pure (keep_won won j rest)) in
        All (Holds P at out.1.tables.jobs) (granted out.0)
  kept-Holds j true (ok js, w) p runs h = ((keep j p, refl, runs refl), h)
  kept-Holds j false (ok js, w) p runs h = h
  kept-Holds j won (err e, w) p runs h = tt

  won-Holds :
      (j : Job) (js : List Job) (r : Result Bool × World)
      → P j
      → (r.0 ≡ ok true → IsRunning at r.1.tables.jobs j.id)
      → All (Holds P at (claim_all at js r.1).1.tables.jobs) (granted (claim_all at js r.1).0)
      → let out = continue r (λ won. claim_all at js >>= λ rest. pure (keep_won won j rest)) in
        All (Holds P at out.1.tables.jobs) (granted out.0)
  won-Holds j js (err e, w) p runs h = tt
  won-Holds j js (ok won, w) p runs h =
      kept-Holds j won (claim_all at js w) p
        (λ e. IsRunning-claim_all at j.id js w (runs (ap ok e))) h

  claim_all-Holds :
      (js : List Job) (w : World)
      → All P js
      → All (Holds P at (claim_all at js w).1.tables.jobs) (granted (claim_all at js w).0)
  unfolding claim_all
  claim_all-Holds [] w h = tt
  claim_all-Holds (j ∷ js) w h =
      won-Holds j js (claim_one at j.id w) h.0 (IsRunning-claim_one_self at j.id w)
        (claim_all-Holds js (claim_one at j.id w).1 h.1)

kept_length :
    (j : Job) (won : Bool) (n : ℕ) (r : Result (List Job) × World)
    → length (granted r.0) ≤ n
    → length (granted (continue r (λ rest. pure (keep_won won j rest))).0) ≤ suc n
kept_length j true n (ok js, w) h = omega arith
kept_length j false n (ok js, w) h = omega arith
kept_length j won n (err e, w) h = omega arith

won_length :
    (at : Stamp) (j : Job) (js : List Job) (r : Result Bool × World)
    → length (granted (claim_all at js r.1).0) ≤ length js
    → length
        (granted (continue r (λ won. claim_all at js >>= λ rest. pure (keep_won won j rest))).0)
      ≤ suc (length js)
won_length at j js (ok won, w) h = kept_length j won (length js) (claim_all at js w) h
won_length at j js (err e, w) h = omega arith

length-claim_all :
    (at : Stamp) (js : List Job) (w : World) → length (granted (claim_all at js w).0) ≤ length js
unfolding claim_all
length-claim_all at [] w = omega arith
length-claim_all at (j ∷ js) w =
    won_length at j js (claim_one at j.id w) (length-claim_all at js (claim_one at j.id w).1)

-- The reading of the clock that the call compares and stamps with.
abbrev pub claim_time : World → Stamp
claim_time w = format (now w).1.clock

abbrev ClaimFacts : ℕ → World → Result (List Job) × World → Type 0
ClaimFacts n w out =
    All (Holds (WasRunnable (claim_time w) w.tables.jobs) (claim_time w) out.1.tables.jobs)
      (granted out.0)
    × Distinct (ids (granted out.0))
    × (length (granted out.0) ≤ n)

ClaimFacts-of :
    (n : ℕ) (w : World) (r : Result (List Job) × World)
    → ((js : List Job)
        → r.0 ≡ ok js
        → All (WasRunnable (claim_time w) w.tables.jobs) js × (length js ≤ n))
    → ClaimFacts n w (continue r (claim_all (claim_time w)))
ClaimFacts-of n w (err e, w') h = (tt, tt, omega arith)
ClaimFacts-of n w (ok js, w') h =
    let (all, few) = h js refl in
    (
      claim_all-Holds (WasRunnable (claim_time w) w.tables.jobs) (λ j p. p) (claim_time w) js w'
          all,
      claim_all_exclusive (claim_time w) js w',
      omega (arith, length-claim_all (claim_time w) js w'),
    )

-- Each job that ClaimJobs returns had a pending row whose run_after had passed, with the returned
-- type, payload and attempts, and its row is now running and locked at the time of the claim; the
-- call returns no id twice and no more jobs than the limit allows, whatever the driver refuses.
pub claim_jobs_sound :
    (limit : ℤ) (w : World)
    → let out = claim_jobs limit w in
      All
        (Holds (WasRunnable (claim_time w) w.tables.jobs) (claim_time w) out.1.tables.jobs)
        (granted out.0)
      × Distinct (ids (granted out.0))
      × (length (granted out.0) ≤ claim_limit limit)
unfolding claim_jobs now
claim_jobs_sound limit w =
    ClaimFacts-of (claim_limit limit) w
      (query (λ t. candidates (claim_time w) (claim_limit limit) t.jobs) (now w).1)
      λ js e.
        let same : js ≡ candidates (claim_time w) (claim_limit limit) w.tables.jobs =
          query_ok _ (now w).1 js e
          ∙ ap (λ t. candidates (claim_time w) (claim_limit limit) t.jobs) (now_tables w).0 in
        rw same (
          candidates-WasRunnable (claim_time w) (claim_limit limit) w.tables.jobs,
          length-candidates (claim_time w) (claim_limit limit) w.tables.jobs,
        )
