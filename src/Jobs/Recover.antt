-- ===== src/Jobs/Recover.antt =====
-- ResetStaleJobs: which rows the reaper returns to the queue.
use go_web_search.Prelude.{
  ℕ, ◌+◌, ◌-◌, ◌≤◌, ◌≡◌, Bool, true, false, [], none, some, In, if◌then◌else◌, pos, arith, subst,
  sym, ap, ◌∙◌,
}
use go_web_search.Clock.{Time, second, format}
use go_web_search.Clock.Order.{text_lt_bounds}
use go_web_search.Rows.{JobRow, pending, running}
use go_web_search.Sql.{update, count}
use go_web_search.Sql.Rows.{In-update}
use go_web_search.Store.{World, now}
use go_web_search.Store.Laws.{exec_calm, now_tables}
use go_web_search.Jobs.{is_stale, unlock, reset_stale_jobs, update_jobs, on_jobs}

-- The instant that the sweep reads first.
abbrev pub sweep_time : World → Time
sweep_time w = (now w).1.clock

-- The second reading.
abbrev pub stamp_time : World → Time
stamp_time w = (now (now w).1).1.clock

swept_jobs :
    (p : JobRow → Bool) (f : JobRow → JobRow) (w : World)
    → w.faults ≡ []
    → (update_jobs p f (now (now w).1).1).1.tables.jobs ≡ update p f w.tables.jobs
unfolding update_jobs
swept_jobs p f w calm =
    ap (λ out. out.1.tables.jobs)
      (exec_calm (λ t. (on_jobs (update p f) t, count p t.jobs)) (now (now w).1).1
        ((now_tables (now w).1).1 ∙ (now_tables w).1 ∙ calm))
    ∙ ap (λ t. update p f t.jobs) ((now_tables (now w).1).0 ∙ (now_tables w).0)

reset_stale_jobs-jobs :
    (older : ℕ) (w : World)
    → w.faults ≡ []
    → (reset_stale_jobs (pos older) w).1.tables.jobs
      ≡ update
          (is_stale (format (sweep_time w - older)))
          (unlock (format (stamp_time w)))
          w.tables.jobs
unfolding reset_stale_jobs now
reset_stale_jobs-jobs older w calm = swept_jobs _ _ w calm

is_stale_bounds :
    (cutoff locked : Time) (r : JobRow)
    → r.status ≡ running
    → r.locked_at ≡ some (format locked)
    → (locked + second ≤ cutoff → is_stale (format cutoff) r ≡ true)
      × (cutoff + second ≤ locked → is_stale (format cutoff) r ≡ false)
unfolding is_stale
is_stale_bounds cutoff locked r e e' = (
  λ h. ground (arith, (text_lt_bounds locked cutoff).0),
  λ h. ground (arith, (text_lt_bounds locked cutoff).1),
)

swept :
    (older : ℕ) (w : World) (r : JobRow) (b : Bool)
    → w.faults ≡ []
    → In r w.tables.jobs
    → is_stale (format (sweep_time w - older)) r ≡ b
    → In
        (if b then unlock (format (stamp_time w)) r else r)
        (reset_stale_jobs (pos older) w).1.tables.jobs
swept older w r b calm i e =
    let p = is_stale (format (sweep_time w - older)) in
    let f = unlock (format (stamp_time w)) in
    subst (In (if b then f r else r)) (sym (reset_stale_jobs-jobs older w calm)) (
      subst (λ c. In (if c then f r else r) (update p f w.tables.jobs)) e
        (In-update p f r w.tables.jobs i))

-- Without a fault of the driver, the sweep returns every running row that was locked at least
-- `older` and one second before it to the queue (it is pending and unlocked, and of its other columns
-- only the time of change is new), and leaves every running row as it is that was
-- locked less than `older` and at least one second less before it. (In between, the text comparison
-- decides; `older` is at most the clock, which counts from the year 0.)
pub reset_stale_jobs_window :
    (older locked : ℕ) (w : World) (r : JobRow)
    → w.faults ≡ []
    → older ≤ sweep_time w
    → In r w.tables.jobs
    → r.status ≡ running
    → r.locked_at ≡ some (format locked)
    → (locked + older + second ≤ sweep_time w
        → In
            (record r { status = pending; locked_at = none; updated_at = format (stamp_time w) })
            (reset_stale_jobs (pos older) w).1.tables.jobs)
      × (sweep_time w + second ≤ locked + older
          → In r (reset_stale_jobs (pos older) w).1.tables.jobs)
unfolding unlock
reset_stale_jobs_window older locked w r calm early i e e' =
    let facts = is_stale_bounds (sweep_time w - older) locked r e e' in
    (
      λ h. swept older w r true calm i (facts.0 (omega arith)),
      λ h. swept older w r false calm i (facts.1 (omega arith)),
    )
