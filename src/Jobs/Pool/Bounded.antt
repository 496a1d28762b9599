-- ===== src/Jobs/Pool/Bounded.antt =====
-- jobs.go and jobstore.go: the attempts of the jobs along the steps of the pool.
use go_web_search.Prelude.{
  ℕ, suc, ◌*◌, ◌<◌, inl, inr, Bool, true, false, List, [], ◌∷◌, ◌++◌, String, arith, All,
  All-append, leb, Bool-cases, ◌==◌, if◌then◌else◌, ℤ, pos,
}
use go_web_search.Clock.{Duration, Stamp, second, format, add_neg}
use go_web_search.Rows.{JobRow, JobType, Payload, Tables}
use go_web_search.Sql.{update, count}
use go_web_search.Store.{Result, ok, err, World, now, now_rfc3339, new_id, query}
use go_web_search.Store.Keeps.{
  Keeps, Keeps-bind, Keeps-pure, Keeps-query, Keeps-now, Keeps-now_rfc3339, Keeps-new_id,
  Keeps-exec,
}
use go_web_search.Jobs.{
  Job, has_id, is_stale, complete_job, retry_job, fail_job, reset_stale_jobs, enqueue_job,
  claim_jobs, job_type_eq, complete, retry, give_up, unlock, lock, update_jobs, on_jobs, insert_job,
  fresh_job, claim_one, claim_all, candidates, claim_limit, keep_won, is_claimable,
}
use go_web_search.Jobs.Runner.{
  JobRunner, Handler, find_handler, run, run_with, settle, claimed_or_none, poll_tick, reap_tick,
  recur_tick,
}
use go_web_search.Jobs.Pool.{Pool, Step, poll, work, reap, recur, restart, Reach, here, next}

abbrev pub FewAttempts : ℕ → Tables → Type 0
FewAttempts n t = All (λ r. r.attempts < n) t.jobs

All-update :
    (n : ℕ) (p : JobRow → Bool) (f : JobRow → JobRow) (rows : List JobRow)
    → ((r : JobRow) → r.attempts < n → (f r).attempts < n)
    → All (λ r. r.attempts < n) rows
    → All (λ r. r.attempts < n) (update p f rows)
unfolding update
All-update n p f [] keep h = tt
All-update n p f (r ∷ rows) keep h = (
  elim (p r) as (λ b. (if b then f r else r).attempts < n) [ true ↦ keep r h.0 | false ↦ h.0 ],
  All-update n p f rows keep h.1,
)

module _ (n : ℕ) where
  abbrev Few : Tables → Type 0
  Few = FewAttempts n

  update_jobs-Few :
      (p : JobRow → Bool) (f : JobRow → JobRow)
      → ((r : JobRow) → r.attempts < n → (f r).attempts < n)
      → Keeps Few (update_jobs p f)
  unfolding update_jobs
  update_jobs-Few p f keep =
      Keeps-exec Few (λ t. (on_jobs (update p f) t, count p t.jobs))
        (λ t h. All-update n p f t.jobs keep h)

  complete_job-Few : (id : String) → Keeps Few (complete_job id)
  unfolding complete_job
  complete_job-Few id =
      Keeps-bind Few now_rfc3339 _ (Keeps-now_rfc3339 Few)
        λ at. update_jobs-Few (has_id id) (complete at) (λ r k. k)

  fail_job-Few : (id : String) → Keeps Few (fail_job id)
  unfolding fail_job
  fail_job-Few id =
      Keeps-bind Few now_rfc3339 _ (Keeps-now_rfc3339 Few)
        λ at. update_jobs-Few (has_id id) (give_up at) (λ r k. k)

  retry_job-Few :
      (id : String) (attempts : ℕ) (d : Duration)
      → attempts < n
      → Keeps Few (retry_job id attempts d)
  unfolding retry_job
  retry_job-Few id attempts d lt =
      Keeps-bind Few now _ (Keeps-now Few)
        λ t. update_jobs-Few (has_id id) (retry t attempts d) (λ r k. lt)

  reset_stale_jobs-Few : (d : Duration) → Keeps Few (reset_stale_jobs d)
  unfolding reset_stale_jobs
  reset_stale_jobs-Few d = Keeps-bind Few now _ (Keeps-now Few) λ t.
      Keeps-bind Few now_rfc3339 _ (Keeps-now_rfc3339 Few)
        λ at. update_jobs-Few (is_stale (format (add_neg t d))) (unlock at) (λ r k. k)

  -- A new job has made no attempt.
  pub enqueue_job-Few : (t : JobType) (p : Payload) → 0 < n → Keeps Few (enqueue_job t p)
  unfolding enqueue_job insert_job
  enqueue_job-Few t p lt = Keeps-bind Few new_id _ (Keeps-new_id Few) λ id.
      Keeps-bind Few now_rfc3339 _ (Keeps-now_rfc3339 Few) λ at.
        Keeps-bind Few (insert_job (fresh_job id t p at)) _
          (Keeps-exec Few (λ tables. (on_jobs (λ rows. rows ++ fresh_job id t p at ∷ []) tables, 1))
            (λ tables h. All-append _ tables.jobs (fresh_job id t p at ∷ []) h (lt, tt)))
          λ _. Keeps-pure Few id

  claim_one-Few : (at : Stamp) (id : String) → Keeps Few (claim_one at id)
  unfolding claim_one
  claim_one-Few at id =
      Keeps-bind Few (update_jobs (is_claimable id) (lock at)) _
        (update_jobs-Few (is_claimable id) (lock at) (λ r k. k)) λ k. Keeps-pure Few (k == 1)

  claim_all-Few : (at : Stamp) (js : List Job) → Keeps Few (claim_all at js)
  unfolding claim_all
  claim_all-Few at [] = Keeps-pure Few []
  claim_all-Few at (j ∷ js) = Keeps-bind Few (claim_one at j.id) _ (claim_one-Few at j.id) λ won.
      Keeps-bind Few (claim_all at js) _ (claim_all-Few at js)
        λ rest. Keeps-pure Few (keep_won won j rest)

  claim_jobs-Few : (limit : ℤ) → Keeps Few (claim_jobs limit)
  unfolding claim_jobs
  claim_jobs-Few limit = Keeps-bind Few now_rfc3339 _ (Keeps-now_rfc3339 Few) λ at.
      Keeps-bind Few (query (λ t. candidates at (claim_limit limit) t.jobs)) _ (Keeps-query Few _)
        λ js. claim_all-Few at js

-- A handler that gives no job a number of attempts that the runner would not.
abbrev pub IsTame : ℕ → Handler → Type 0
IsTame n h = (p : Payload) → Keeps (FewAttempts n) (h p)

module _ (r : JobRunner) (tame : All (λ e. IsTame r.max_attempts e.1) r.handlers) where
  abbrev max : ℕ
  max = r.max_attempts

  settle-Few :
      (j : Job) (out : Result (Unit {0}) × World)
      → FewAttempts max out.1.tables
      → FewAttempts max (settle r j out).tables
  unfolding settle
  settle-Few j (ok u, w) h = (complete_job-Few max j.id).at w h
  settle-Few j (err e, w) h = elim (Bool-cases (leb max (suc j.attempts))) [
    | inl last ↦ rw last ((fail_job-Few max j.id).at w h)
    | inr more ↦ rw more (
        (retry_job-Few max j.id (suc j.attempts) (pos (suc j.attempts * suc j.attempts * second))
            (ground arith)).at
          w h)
  ]

  run_with-Few :
      (j : Job) (t : JobType) (hs : List (JobType × Handler)) (w : World)
      → All (λ e. IsTame max e.1) hs
      → FewAttempts max w.tables
      → FewAttempts max (run_with r j (find_handler t hs) w).tables
  unfolding find_handler
  run_with-Few j t [] w all h = (fail_job-Few max j.id).at w h
  run_with-Few j t ((u, f) ∷ hs) w all h = elim (Bool-cases (job_type_eq u t)) [
    | inl this ↦ rw this (settle-Few j (f j.payload w) ((all.0 j.payload).at w h))
    | inr other ↦ rw other (run_with-Few j t hs w all.1 h)
  ]

  run-Few : (j : Job) (w : World) → FewAttempts max w.tables → FewAttempts max (run r j w).tables
  unfolding run
  run-Few j w h = run_with-Few j j.job_type r.handlers w tame h

  poll_tick-Few : (w : World) → FewAttempts max w.tables → FewAttempts max (poll_tick r w).1.tables
  unfolding poll_tick
  poll_tick-Few w h = go (claim_jobs r.workers w) ((claim_jobs-Few max r.workers).at w h)
    where
      go :
          (out : Result (List Job) × World)
          → FewAttempts max out.1.tables
          → FewAttempts max (claimed_or_none out).1.tables
      go (ok js, w') k = k
      go (err e, w') k = k

  Step-Few :
      {s t : Pool}
      → 0 < max
      → Step r s t
      → FewAttempts max s.world.tables
      → FewAttempts max t.world.tables
  unfolding reap_tick recur_tick
  Step-Few {s = s} lt poll h = poll_tick-Few s.world h
  Step-Few {s = s} lt (work front back j e) h = run-Few j s.world h
  Step-Few {s = s} lt reap h = (reset_stale_jobs-Few max r.stale_after).at s.world h
  Step-Few {s = s} lt (recur rec i) h =
      (enqueue_job-Few max rec.job_type rec.payload lt).at s.world h
  Step-Few {s = s} lt restart h = (reset_stale_jobs-Few max r.stale_after).at s.world h

  -- Whatever the workers, the poller, the reaper, the schedules, crashes and the driver do, no row
  -- of the queue ever reaches the runner's maximum number of attempts, if none has at the start and
  -- the registered handlers leave the attempts alone.
  pub attempts_bounded :
      {s t : Pool}
      → 0 < r.max_attempts
      → FewAttempts r.max_attempts s.world.tables
      → Reach r s t
      → FewAttempts r.max_attempts t.world.tables
  attempts_bounded lt h here = h
  attempts_bounded lt h (next reach st) = Step-Few lt st (attempts_bounded lt h reach)
