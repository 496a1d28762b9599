-- ===== src/Examples/Queue.antt =====
-- The queue's theorems at concrete schedules.
use go_web_search.Prelude.{
  ◌+◌, ◌*◌, ◌≤◌, ◌≡◌, refl, false, [], ◌∷◌, none, pos, All, In, Distinct, arith, inl, inr, length,
  ◌≢◌,
}
use go_web_search.Clock.{second, format}
use go_web_search.Rows.{JobRow, pending}
use go_web_search.Store.{err, driver, now}
use go_web_search.Jobs.{claim_jobs, scan_job, reset_stale_jobs}
use go_web_search.Jobs.Claim.{wins, wins_exclusive, granted, ids}
use go_web_search.Jobs.Granted.{claim_jobs_sound, Holds, claim_time}
use go_web_search.Jobs.Held.{WasRunnable}
use go_web_search.Jobs.Runner.{JobRunner, new_job_runner, settle}
use go_web_search.Jobs.Fate.{settle_lem, IsSettled, settle_time}
use go_web_search.Jobs.Recover.{reset_stale_jobs_window, sweep_time, stamp_time}
use go_web_search.Jobs.Pool.{Pool, here, next, poll}
use go_web_search.Jobs.Pool.Bounded.{FewAttempts}
use go_web_search.Wiring.{register_jobs}
use go_web_search.Wiring.Bounded.{wired_attempts_bounded}
use go_web_search.Jobs.Runner.{poll_tick}
use go_web_search.Examples.Data.{
  at_noon, pending_row, locked_row, world, service, tiers, memory_settings, retention,
}

-- Two workers try one job, one after the other, and a third statement is refused.
wins_exclusive_example :
    Distinct
      (wins ((format at_noon, "a") ∷ (format at_noon, "a") ∷ (format at_noon, "b") ∷ []) world)
wins_exclusive_example =
    wins_exclusive ((format at_noon, "a") ∷ (format at_noon, "a") ∷ (format at_noon, "b") ∷ [])
      world

claim_jobs_sound_example :
    let out = claim_jobs (pos 2) world in
    All
      (Holds
        (WasRunnable (claim_time world) world.tables.jobs)
        (claim_time world)
        out.1.tables.jobs)
      (granted out.0)
    × Distinct (ids (granted out.0))
    × (length (granted out.0) ≤ 2)
claim_jobs_sound_example = claim_jobs_sound (pos 2) world

abbrev runner : JobRunner
runner =
    register_jobs service tiers memory_settings retention (λ text. none) (pos (3600 * second))
      (new_job_runner (pos 2) (pos second) (pos (1800 * second)))

abbrev start : Pool
start = record { world = world; claimed = [] }

abbrev polled : Pool
polled = record { world = (poll_tick runner world).1; claimed = (poll_tick runner world).0 }

wired_attempts_bounded_example : FewAttempts 5 polled.world.tables
wired_attempts_bounded_example =
    wired_attempts_bounded service tiers memory_settings retention (λ text. none)
      (pos (3600 * second)) (pos 2) (pos second) (pos (1800 * second)) {s = start} {t = polled}
      (omega arith, (omega arith, tt)) (next here poll)

settle_lem_example :
    (pending_row.id ≡ (scan_job pending_row).id
      → (y : JobRow) × In y (settle runner (scan_job pending_row) (err driver, world)).tables.jobs
        × IsSettled runner (scan_job pending_row).attempts false (settle_time world) pending_row y)
    × (pending_row.id ≢ (scan_job pending_row).id
        → In pending_row (settle runner (scan_job pending_row) (err driver, world)).tables.jobs)
settle_lem_example =
    settle_lem runner (scan_job pending_row) (err driver) world pending_row refl (inl refl)

reset_stale_jobs_window_example :
    (at_noon + 1800 * second + second ≤ sweep_time world
      → In
          (record locked_row {
            status = pending;
            locked_at = none;
            updated_at = format (stamp_time world);
          })
          (reset_stale_jobs (pos (1800 * second)) world).1.tables.jobs)
    × (sweep_time world + second ≤ at_noon + 1800 * second
        → In locked_row (reset_stale_jobs (pos (1800 * second)) world).1.tables.jobs)
unfolding now
reset_stale_jobs_window_example =
    reset_stale_jobs_window (1800 * second) at_noon world locked_row refl (omega arith)
      (inr (inl refl)) refl refl
