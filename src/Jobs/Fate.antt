-- ===== src/Jobs/Fate.antt =====
-- jobs.go, `run`: what becomes of the row of a job that a worker has run.
use go_web_search.Prelude.{
  ℕ, suc, ◌+◌, ◌*◌, ◌≤◌, ◌<◌, ◌≡◌, ◌≢◌, refl, Bool, true, false, List, [], none, In, leb,
  if◌then◌else◌, pos, arith, inl, inr, subst, sym, ap, ◌∙◌, String, str_eq, Bool-cases, eq_iff,
}
use go_web_search.Clock.{Time, second, format}
use go_web_search.Rows.{JobRow, pending, done, failed}
use go_web_search.Sql.{update, count}
use go_web_search.Sql.Rows.{In-update}
use go_web_search.Store.{Result, ok, err, World, now}
use go_web_search.Store.Laws.{exec_calm, now_tables}
use go_web_search.Jobs.{
  Job, complete, retry, give_up, complete_job, retry_job, fail_job, update_jobs, on_jobs, has_id,
}
use go_web_search.Jobs.Runner.{JobRunner, settle}

settled_jobs :
    (p : JobRow → Bool) (f : JobRow → JobRow) (w : World)
    → w.faults ≡ []
    → (update_jobs p f (now w).1).1.tables.jobs ≡ update p f w.tables.jobs
unfolding update_jobs
settled_jobs p f w calm =
    ap (λ out. out.1.tables.jobs)
      (exec_calm (λ t. (on_jobs (update p f) t, count p t.jobs)) (now w).1
        ((now_tables w).1 ∙ calm))
    ∙ ap (λ t. update p f t.jobs) ((now_tables w).0)

-- The row after the update, whichever it is.
settled_row :
    (id : String) (f : JobRow → JobRow) (w : World) (r : JobRow)
    → w.faults ≡ []
    → In r w.tables.jobs
    → In (if str_eq r.id id then f r else r) (update_jobs (has_id id) f (now w).1).1.tables.jobs
settled_row id f w r calm i =
    subst (In (if has_id id r then f r else r)) (sym (settled_jobs (has_id id) f w calm))
      (In-update (has_id id) f r w.tables.jobs i)

-- The instant of the settlement.
abbrev pub settle_time : World → Time
settle_time w = (now w).1.clock

-- The row of a job by the outcome of its run: completed; or failed for good once the attempts reach
-- the maximum; or pending again, one attempt more, after the square of the attempts in seconds.
pub record IsSettled (r : JobRunner) (attempts : ℕ) (success : Bool) (t : Time) (x y : JobRow)
    : Type 0 where
  pub same_job :
      (y.id ≡ x.id) × (y.job_type ≡ x.job_type) × (y.payload ≡ x.payload) × (y.locked_at ≡ none)
  pub completed : success ≡ true → (y.status ≡ done) × (y.attempts ≡ x.attempts)
  pub retried :
      success ≡ false
      → suc attempts < r.max_attempts
      → (y.status ≡ pending)
        × (y.attempts ≡ suc attempts)
        × (y.run_after ≡ format (t + suc attempts * suc attempts * second))
  pub given_up :
      success ≡ false
      → r.max_attempts ≤ suc attempts
      → (y.status ≡ failed) × (y.attempts ≡ x.attempts)

abbrev pub succeeds : Result (Unit {0}) → Bool
succeeds (ok _) = true
succeeds (err e) = false

module _ (id : String) (w : World) (x : JobRow) (calm : w.faults ≡ [])
    (i : In x w.tables.jobs) where
  complete_row :
      In
        (if str_eq x.id id then complete (format (settle_time w)) x else x)
        (complete_job id w).1.tables.jobs
  unfolding complete_job
  complete_row = settled_row id _ w x calm i

  retry_row :
      (n d : ℕ)
      → In
          (if str_eq x.id id then retry (settle_time w) n (pos d) x else x)
          (retry_job id n (pos d) w).1.tables.jobs
  unfolding retry_job
  retry_row n d = settled_row id _ w x calm i

  fail_row :
      In
        (if str_eq x.id id then give_up (format (settle_time w)) x else x)
        (fail_job id w).1.tables.jobs
  unfolding fail_job
  fail_row = settled_row id _ w x calm i

chosen :
    (id : String) (x y : JobRow) (rows : List JobRow) (Q : JobRow → Type 0)
    → Q y
    → In (if str_eq x.id id then y else x) rows
    → (x.id ≡ id → (z : JobRow) × In z rows × Q z) × (x.id ≢ id → In x rows)
chosen id x y rows Q q i =
    (elim (str_eq x.id id)
        as (λ b.
          str_eq x.id id ≡ b
          → In (if b then y else x) rows
          → (x.id ≡ id → (z : JobRow) × In z rows × Q z) × (x.id ≢ id → In x rows)) [
            | true ↦ λ e k. (λ _. (y, k, q), λ ne. absurd (ne ((eq_iff _ _).0 e)))
            | false ↦ λ e k. (λ same. absurd (true_false e ((eq_iff _ _).1 same)), λ _. k)
          ])
      refl i
  where
    true_false : str_eq x.id id ≡ false → str_eq x.id id ≡ true → ⊥
    true_false e e' = cc

module _ (r : JobRunner) (n : ℕ) (t : Time) (x : JobRow) where
  completed_IsSettled : IsSettled r n true t x (complete (format t) x)
  unfolding complete
  completed_IsSettled = record {
    same_job = (refl, refl, refl, refl);
    completed = λ _. (refl, refl);
    retried = λ e h. ground arith;
    given_up = λ e h. ground arith;
  }

  retried_IsSettled :
      suc n < r.max_attempts
      → IsSettled r n false t x (retry t (suc n) (pos (suc n * suc n * second)) x)
  unfolding retry
  retried_IsSettled lt = record {
    same_job = (refl, refl, refl, refl);
    completed = λ e. ground arith;
    retried = λ e h. (refl, refl, refl);
    given_up = λ e h. absurd (omega arith);
  }

  given_up_IsSettled : r.max_attempts ≤ suc n → IsSettled r n false t x (give_up (format t) x)
  unfolding give_up
  given_up_IsSettled le = record {
    same_job = (refl, refl, refl, refl);
    completed = λ e. ground arith;
    retried = λ e h. absurd (omega arith);
    given_up = λ e h. (refl, refl);
  }

-- When the driver does not fail after the handler, the row of the job is settled by the handler's
-- outcome, and the row of every other job stays as the handler left it.
pub settle_lem :
    (r : JobRunner) (j : Job) (out : Result (Unit {0})) (w : World) (x : JobRow)
    → w.faults ≡ []
    → In x w.tables.jobs
    → (x.id ≡ j.id
        → (y : JobRow) × In y (settle r j (out, w)).tables.jobs
          × IsSettled r j.attempts (succeeds out) (settle_time w) x y)
      × (x.id ≢ j.id → In x (settle r j (out, w)).tables.jobs)
unfolding settle
settle_lem r j (ok u) w x calm i =
    chosen j.id x _ _ (IsSettled r j.attempts true (settle_time w) x)
      (completed_IsSettled r j.attempts (settle_time w) x) (complete_row j.id w x calm i)
settle_lem r j (err e) w x calm i = elim (Bool-cases (leb r.max_attempts (suc j.attempts))) [
  | inl over ↦ rw over (
      chosen j.id x _ _ (IsSettled r j.attempts false (settle_time w) x)
        (given_up_IsSettled r j.attempts (settle_time w) x (ground (arith, over)))
        (fail_row j.id w x calm i))
  | inr under ↦ rw under (
      chosen j.id x _ _ (IsSettled r j.attempts false (settle_time w) x)
        (retried_IsSettled r j.attempts (settle_time w) x (ground (arith, under)))
        (retry_row j.id w x calm i (suc j.attempts) (suc j.attempts * suc j.attempts * second)))
]
