-- ===== src/Jobs/Held.antt =====
-- jobstore.go, `ClaimJobs`: the rows that a claim reads, and those that it holds.
use go_web_search.Prelude.{
  ℕ, ◌≤◌, ◌≡◌, refl, inl, inr, Bool, true, false, List, [], ◌∷◌, some, String, arith, eq_iff, All,
  In, take, length, length-take, length-map,
}
use go_web_search.Clock.{Stamp, text_lt, text_le}
use go_web_search.Rows.{JobRow, pending, running}
use go_web_search.Sql.{select, count, order_by}
use go_web_search.Sql.Rows.{
  All-select, All-order_by, All-take, All-weaken, All-In, All-map, In-update, In_of_count,
}
use go_web_search.Store.{Result, ok, err, World, continue, pure, ◌>>=◌, driver, exec}
use go_web_search.Jobs.{
  Job, is_claimable, is_runnable, lock, scan_job, candidates, claim_one, claim_all, keep_won,
}
use go_web_search.Jobs.Claim.{claim_one_effect}

-- The row of a job that waits to be claimed and whose time has come.
abbrev pub WasRunnable : Stamp → List JobRow → Job → Type 0
WasRunnable at rows j =
    (r : JobRow) × In r rows
    × (r.status ≡ pending)
    × (text_le r.run_after at ≡ true)
    × (r.id ≡ j.id)
    × (r.job_type ≡ j.job_type)
    × (r.payload ≡ j.payload)
    × (r.attempts ≡ j.attempts)

-- The row of a job that a worker holds since `at`.
abbrev pub IsRunning : Stamp → List JobRow → String → Type 0
IsRunning at rows id =
    (r : JobRow) × In r rows × (r.id ≡ id) × (r.status ≡ running) × (r.locked_at ≡ some at)

pub runnable_scan :
    (at : Stamp) (rows : List JobRow) (r : JobRow)
    → In r rows × (is_runnable at r ≡ true)
    → WasRunnable at rows (scan_job r)
unfolding is_runnable scan_job
runnable_scan at rows r (i, h) = (r, i, ground arith, ground arith, refl, refl, refl, refl)

pub candidates-WasRunnable :
    (at : Stamp) (n : ℕ) (rows : List JobRow) → All (WasRunnable at rows) (candidates at n rows)
unfolding candidates
candidates-WasRunnable at n rows =
    let earlier = λ (a b : JobRow). text_lt a.run_after b.run_after in
    All-map (WasRunnable at rows) scan_job
      (take n (order_by earlier (select (is_runnable at) rows)))
      (All-weaken (λ r. In r rows × (is_runnable at r ≡ true))
        (λ r. WasRunnable at rows (scan_job r))
        (take n (order_by earlier (select (is_runnable at) rows))) (runnable_scan at rows)
        (All-take _ n (order_by earlier (select (is_runnable at) rows)) (
          All-order_by _ earlier (select (is_runnable at) rows)
            (All-select (λ r. In r rows) (is_runnable at) rows (All-In rows)))))

pub length-candidates :
    (at : Stamp) (n : ℕ) (rows : List JobRow) → length (candidates at n rows) ≤ n
unfolding candidates
length-candidates at n rows =
    let picked =
      order_by (λ (a b : JobRow). text_lt a.run_after b.run_after) (select (is_runnable at) rows) in
    omega (arith, length-map (take n picked) scan_job, length-take n picked)

pub running_not_claimable :
    (id : String) (r : JobRow) → r.status ≡ running → is_claimable id r ≡ false
running_not_claimable id r h = ground arith

pub claimable_id : (id : String) (r : JobRow) → is_claimable id r ≡ true → r.id ≡ id
claimable_id id r h = ground (arith, eq_iff r.id id)

pub won_one :
    (at : Stamp) (id : String) (w : World)
    → (claim_one at id w).0 ≡ ok true
    → count (is_claimable id) w.tables.jobs ≡ 1
unfolding claim_one exec
won_one at id w e = ground arith

-- A claimed row is running after its claim, and stays so while other claims go on.
pub IsRunning-claim_one_self :
    (at : Stamp) (id : String) (w : World)
    → (claim_one at id w).0 ≡ ok true
    → IsRunning at (claim_one at id w).1.tables.jobs id
unfolding lock
IsRunning-claim_one_self at id w e = elim (claim_one_effect at id w) [
  | inl kept ↦ absurd (clash kept.0 e)
  | inr changed ↦
      let (r, i, q) = In_of_count (is_claimable id) w.tables.jobs (won_one at id w e) in
      rw (changed.1) (
        lock at r,
        rw q at (In-update (is_claimable id) (lock at) r w.tables.jobs i),
        claimable_id id r q,
        refl,
        refl,
      )
]
  where
    clash : (claim_one at id w).0 ≡ err driver → (claim_one at id w).0 ≡ ok true → ⊥
    clash a b = cc

pub IsRunning-claim_one :
    (at : Stamp) (a id : String) (w : World)
    → IsRunning at w.tables.jobs a
    → IsRunning at (claim_one at id w).1.tables.jobs a
IsRunning-claim_one at a id w (r, i, same, runs, locked) = elim (claim_one_effect at id w) [
  | inl kept ↦ rw (kept.1) (r, i, same, runs, locked)
  | inr changed ↦ rw (changed.1) (
    r,
    rw (running_not_claimable id r runs) at
        (In-update (is_claimable id) (lock at) r w.tables.jobs i),
    same,
    runs,
    locked,
  )
]

pub IsRunning-claim_all :
    (at : Stamp) (a : String) (js : List Job) (w : World)
    → IsRunning at w.tables.jobs a
    → IsRunning at (claim_all at js w).1.tables.jobs a
unfolding claim_all
IsRunning-claim_all at a [] w h = h
IsRunning-claim_all at a (j ∷ js) w h =
    go (claim_one at j.id w)
      (IsRunning-claim_all at a js (claim_one at j.id w).1 (IsRunning-claim_one at a j.id w h))
      (IsRunning-claim_one at a j.id w h)
  where
    rest :
        (won : Bool) (r : Result (List Job) × World)
        → IsRunning at r.1.tables.jobs a
        → IsRunning at (continue r (λ rest. pure (keep_won won j rest))).1.tables.jobs a
    rest won (ok js', w') k = k
    rest won (err e, w') k = k

    go :
        (r : Result Bool × World)
        → IsRunning at (claim_all at js r.1).1.tables.jobs a
        → IsRunning at r.1.tables.jobs a
        → IsRunning at
            (continue r
              (λ won. claim_all at js >>= λ rest. pure (keep_won won j rest))).1.tables.jobs
            a
    go (ok won, w') k l = rest won (claim_all at js w') k
    go (err e, w') k l = l
